-- ===== src/Persistence/Connections/Listing.antt =====
-- What a listing of the table holds: connections that are found under their keys, each once.
use muxivo_console.Shared.{
  ℕ, zero, suc, Bool, false, ◌≡◌, refl, arith, some, List, [], ◌∷◌, find, filter, take, All, ◌==◌,
  ltb, inl, inr, Bool-cases, ◌||◌,
}
use muxivo_console.Domain.Activity.{Uuid}
use muxivo_console.Persistence.Database.{ConnectionRow, has_connection}
use muxivo_console.Persistence.Connections.{is_connection, insert_by_id, order_by_id}
use muxivo_console.Persistence.Connections.Writes.{HasUniqueIds}

-- The row is what its own keys select.
abbrev IsSelected : List ConnectionRow → ConnectionRow → Type 0
IsSelected rows r = find (is_connection r.organization_id r.id) rows ≡ some r

IsSelected-below :
    (x : ConnectionRow) (rs ys : List ConnectionRow)
    → has_connection x.id ys ≡ false
    → All (IsSelected rs) ys
    → All (IsSelected (x ∷ rs)) ys
IsSelected-below x rs [] h a = tt
IsSelected-below x rs (y ∷ ys) h a = ground (arith, IsSelected-below x rs ys)

pub All-IsSelected : (rs : List ConnectionRow) → HasUniqueIds rs → All (IsSelected rs) rs
All-IsSelected [] u = tt
All-IsSelected (r ∷ rs) u = (ground arith, IsSelected-below r rs rs u.0 (All-IsSelected rs u.1))

-- `where`, `order_by` and `limit` keep what holds of every row.
module _ (P : ConnectionRow → Type 0) where
  pub All-filter :
      (p : ConnectionRow → Bool) (rs : List ConnectionRow) → All P rs → All P (filter p rs)
  All-filter p [] a = tt
  All-filter p (r ∷ rs) a = elim (Bool-cases (p r)) [
    | inl e ↦ rw e (a.0, All-filter p rs a.1)
    | inr e ↦ rw e (All-filter p rs a.1)
  ]

  All-insert_by_id :
      (x : ConnectionRow) (rs : List ConnectionRow) → P x → All P rs → All P (insert_by_id x rs)
  All-insert_by_id x [] h a = (h, tt)
  All-insert_by_id x (r ∷ rs) h a = elim (Bool-cases (ltb r.id x.id)) [
    | inl e ↦ rw e (a.0, All-insert_by_id x rs h a.1)
    | inr e ↦ rw e (h, a)
  ]

  pub All-order_by_id : (rs : List ConnectionRow) → All P rs → All P (order_by_id rs)
  All-order_by_id [] a = tt
  All-order_by_id (r ∷ rs) a = All-insert_by_id r (order_by_id rs) a.0 (All-order_by_id rs a.1)

  pub All-take : (n : ℕ) (rs : List ConnectionRow) → All P rs → All P (take n rs)
  All-take zero rs a = tt
  All-take (suc n) [] a = tt
  All-take (suc n) (r ∷ rs) a = (a.0, All-take n rs a.1)

-- And they keep identifiers apart.
has_connection-filter :
    (k : Uuid) (p : ConnectionRow → Bool) (rs : List ConnectionRow)
    → has_connection k rs ≡ false
    → has_connection k (filter p rs) ≡ false
has_connection-filter k p [] h = refl
has_connection-filter k p (r ∷ rs) h = ground (arith, has_connection-filter k p rs)

pub HasUniqueIds-filter :
    (p : ConnectionRow → Bool) (rs : List ConnectionRow)
    → HasUniqueIds rs
    → HasUniqueIds (filter p rs)
HasUniqueIds-filter p [] u = tt
HasUniqueIds-filter p (r ∷ rs) u = elim (Bool-cases (p r)) [
  | inl e ↦ rw e (has_connection-filter r.id p rs u.0, HasUniqueIds-filter p rs u.1)
  | inr e ↦ rw e (HasUniqueIds-filter p rs u.1)
]

has_connection-insert_by_id :
    (k : Uuid) (x : ConnectionRow) (rs : List ConnectionRow)
    → has_connection k (insert_by_id x rs) ≡ (x.id == k || has_connection k rs)
has_connection-insert_by_id k x [] = refl
has_connection-insert_by_id k x (r ∷ rs) = ground (arith, has_connection-insert_by_id k x rs)

HasUniqueIds-insert_by_id :
    (x : ConnectionRow) (rs : List ConnectionRow)
    → has_connection x.id rs ≡ false
    → HasUniqueIds rs
    → HasUniqueIds (insert_by_id x rs)
HasUniqueIds-insert_by_id x [] h u = (refl, tt)
HasUniqueIds-insert_by_id x (r ∷ rs) h u = elim (Bool-cases (ltb r.id x.id)) [
  | inl e ↦ rw e (
    ground (arith, has_connection-insert_by_id r.id x rs),
    HasUniqueIds-insert_by_id x rs (ground arith) u.1,
  )
  | inr e ↦ rw e (h, u)
]

has_connection-order_by_id :
    (k : Uuid) (rs : List ConnectionRow) → has_connection k (order_by_id rs) ≡ has_connection k rs
has_connection-order_by_id k [] = refl
has_connection-order_by_id k (r ∷ rs) =
    ground
      (arith, has_connection-insert_by_id k r (order_by_id rs), has_connection-order_by_id k rs)

pub HasUniqueIds-order_by_id :
    (rs : List ConnectionRow) → HasUniqueIds rs → HasUniqueIds (order_by_id rs)
HasUniqueIds-order_by_id [] u = tt
HasUniqueIds-order_by_id (r ∷ rs) u =
    HasUniqueIds-insert_by_id r (order_by_id rs) (rw (has_connection-order_by_id r.id rs) u.0)
      (HasUniqueIds-order_by_id rs u.1)

has_connection-take :
    (k : Uuid) (n : ℕ) (rs : List ConnectionRow)
    → has_connection k rs ≡ false
    → has_connection k (take n rs) ≡ false
has_connection-take k zero rs h = refl
has_connection-take k (suc n) [] h = refl
has_connection-take k (suc n) (r ∷ rs) h = ground (arith, has_connection-take k n rs)

pub HasUniqueIds-take :
    (n : ℕ) (rs : List ConnectionRow) → HasUniqueIds rs → HasUniqueIds (take n rs)
HasUniqueIds-take zero rs u = tt
HasUniqueIds-take (suc n) [] u = tt
HasUniqueIds-take (suc n) (r ∷ rs) u =
    (has_connection-take r.id n rs u.0, HasUniqueIds-take n rs u.1)
