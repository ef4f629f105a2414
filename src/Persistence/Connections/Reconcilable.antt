-- ===== src/Persistence/Connections/Reconcilable.antt =====
-- `list_reconcilable`: the snapshot that a reconciliation pass works on.
use text.Mathlib.Text.{◌==◌ as str_eq}
use muxivo_console.Shared.{
  ℕ, zero, suc, ◌≤◌, Bool, false, not, ◌≡◌, ◌≢◌, refl, arith, some, List, [], ◌∷◌, find, filter,
  take, any, All, ◌==◌, Option-cases, inl, inr, length, String,
}
use muxivo_console.Domain.Activity.{Uuid}
use muxivo_console.Domain.Connections.{PlatformConnection, ConnectionStatus}
use muxivo_console.Persistence.Values.{status_value, to_status}
use muxivo_console.Persistence.Database.{Database, ConnectionRow, has_connection}
use muxivo_console.Persistence.Connections.{
  connection_from_row, connections_from_rows, is_connection, find_for_organization, and_then,
  order_by_id, list_reconcilable,
}
use muxivo_console.Persistence.Connections.Rows.{keys_of_row, status_of_row}
use muxivo_console.Persistence.Connections.Writes.{HasUniqueIds}
use muxivo_console.Persistence.Connections.Listing

-- The connection is what the table holds under its keys.
abbrev pub IsStored : Database → PlatformConnection → Type 0
IsStored db c = find_for_organization c.organization_id c.id db ≡ some c

abbrev pub IsLive : PlatformConnection → Type 0
IsLive c = c.status ≢ ConnectionStatus.disconnected

abbrev pub is_among : Uuid → List PlatformConnection → Bool
is_among k cs = any (λ c. c.id == k) cs

abbrev pub AreDistinct : List PlatformConnection → Type 0
AreDistinct [] = Unit
AreDistinct (c ∷ cs) = (is_among c.id cs ≡ false) × AreDistinct cs

-- The row is not marked as disconnected.
abbrev IsOpen : ConnectionRow → Type 0
IsOpen r = str_eq r.status (status_value ConnectionStatus.disconnected) ≡ false

open_live :
    (s : String) (t : ConnectionStatus)
    → str_eq s "disconnected" ≡ false
    → to_status s ≡ some t
    → t ≢ ConnectionStatus.disconnected
unfolding to_status
open_live s t h e = ground arith

-- A connection from a row that the table selects under the row's keys.
read-IsStored :
    (db : Database) (r : ConnectionRow) (c : PlatformConnection)
    → find (is_connection r.organization_id r.id) db.connections ≡ some r
    → connection_from_row r ≡ some c
    → IsStored db c
unfolding find_for_organization
read-IsStored db r c selected built =
    let keys = keys_of_row r {c = c} built in
    let at_keys : find (is_connection c.organization_id c.id) db.connections ≡ some r =
      ground (arith, keys, selected) in
    rw (at_keys, and_then) built

All-filter-IsOpen :
    (rs : List ConnectionRow)
    → All IsOpen
        (filter (λ r. not (str_eq r.status (status_value ConnectionStatus.disconnected))) rs)
All-filter-IsOpen [] = tt
All-filter-IsOpen (r ∷ rs) = ground (arith, All-filter-IsOpen rs)

module _ (db : Database) where
  abbrev Selected : ConnectionRow → Type 0
  Selected r = find (is_connection r.organization_id r.id) db.connections ≡ some r

  is_among-rows :
      (k : Uuid) (rs : List ConnectionRow)
      → has_connection k rs ≡ false
      → is_among k (connections_from_rows rs) ≡ false
  is_among-rows k [] h = refl
  is_among-rows k (r ∷ rs) h = elim (Option-cases (connection_from_row r)) [
    | inl e ↦ rw (e, connections_from_rows) (is_among-rows k rs (ground arith))
    | inr (c, e) ↦
        let (id, org) = keys_of_row r e in
        rw (e, connections_from_rows) (ground (arith, is_among-rows k rs))
  ]

  -- What is read from such rows.
  connections_from_rows_lem :
      (rs : List ConnectionRow)
      → HasUniqueIds rs
      → All Selected rs
      → All IsOpen rs
      → All (IsStored db) (connections_from_rows rs)
        × AreDistinct (connections_from_rows rs)
        × All IsLive (connections_from_rows rs)
        × (length (connections_from_rows rs) ≤ length rs)
  connections_from_rows_lem [] u s o = (tt, tt, tt, omega arith)
  connections_from_rows_lem (r ∷ rs) u s o =
      let (a, d, l, n) = connections_from_rows_lem rs u.1 s.1 o.1 in
      elim (Option-cases (connection_from_row r)) [
        | inl e ↦ rw (e, connections_from_rows) (a, d, l, omega arith)
        | inr (c, e) ↦
            let (id, org) = keys_of_row r e in
            rw (e, connections_from_rows)
              (
                (read-IsStored db r c s.0 e, a),
                (rw (← id) (is_among-rows r.id rs u.0), d),
                (open_live r.status c.status o.0 (status_of_row r e), l),
                omega arith,
              )
      ]

length-take-le : (n : ℕ) (rs : List ConnectionRow) → length (take n rs) ≤ n
length-take-le zero rs = omega arith
length-take-le (suc n) [] = omega arith
length-take-le (suc n) (r ∷ rs) = omega (arith, length-take-le n rs)

-- The listing for reconciliation holds at most as many connections as asked for, each once, each
-- as it is found under its keys, and none that is disconnected.
pub list_reconcilable_lem :
    (limit : ℕ) (db : Database)
    → HasUniqueIds db.connections
    → let cs = list_reconcilable limit db in
      All (IsStored db) cs × AreDistinct cs × All IsLive cs × (length cs ≤ limit)
unfolding list_reconcilable
list_reconcilable_lem limit db u =
    let is_open =
      λ (r : ConnectionRow). not (str_eq r.status (status_value ConnectionStatus.disconnected)) in
    let rows = filter is_open db.connections in
    let page = take limit (order_by_id rows) in
    let (a, d, l, n) =
      connections_from_rows_lem db page
        (Listing.HasUniqueIds-take limit (order_by_id rows) (
          Listing.HasUniqueIds-order_by_id rows
            (Listing.HasUniqueIds-filter is_open db.connections u)))
        (Listing.All-take (Selected db) limit (order_by_id rows) (
          Listing.All-order_by_id (Selected db) rows (
            Listing.All-filter (Selected db) is_open db.connections
              (Listing.All-IsSelected db.connections u))))
        (Listing.All-take IsOpen limit (order_by_id rows)
          (Listing.All-order_by_id IsOpen rows (All-filter-IsOpen db.connections))) in
    (a, d, l, omega (arith, length-take-le limit (order_by_id rows)))
