-- ===== src/Application/Pages/Order.antt =====
-- Lists of events by decreasing identifiers, and what comes after a cursor.
use muxivo_console.Shared.{
  ℕ, zero, suc, ◌≤◌, ◌<◌, Bool, true, false, ◌&&◌, ◌≡◌, ◌≢◌, refl, arith, Option, none, some, List,
  [], ◌∷◌, ◌++◌, length, take, drop, filter, All, ltb, insert_by, sort_by, if◌then◌else◌,
  Bool-cases, inl, inr, ap, sym, ◌∙◌,
}
use muxivo_console.Domain.Activity.{Uuid}
use muxivo_console.Domain.Audit.{AuditEvent}
use muxivo_console.Persistence.Organizations.{is_before, newer}
use muxivo_console.Application.Pages.{last_id}

-- The events after a cursor, of those that are listed.
abbrev pub later : Option Uuid → List AuditEvent → List AuditEvent
later after = filter (is_before after)

pub filter_and :
    (p q : AuditEvent → Bool) (es : List AuditEvent)
    → filter (λ e. p e && q e) es ≡ filter q (filter p es)
filter_and p q [] = refl
filter_and p q (e ∷ es) = elim (Bool-cases (p e)) [
  | inl f ↦ elim (Bool-cases (q e)) [
    | inl g ↦ rw (f, g) (ap (λ x. e ∷ x) (filter_and p q es))
    | inr g ↦ rw (f, g) (filter_and p q es)
  ]
  | inr f ↦ rw f (filter_and p q es)
]

later-insert_by :
    (after : Option Uuid) (x : AuditEvent) (es : List AuditEvent)
    → later after (insert_by newer x es)
      ≡ (if is_before after x then insert_by newer x (later after es) else later after es)
later-insert_by after x [] = refl
later-insert_by none x (y ∷ ys) = ground (arith, later-insert_by none x ys)
later-insert_by (some a) x (y ∷ ys) = ground (arith, later-insert_by (some a) x ys)

pub later-sort_by :
    (after : Option Uuid) (es : List AuditEvent)
    → sort_by newer (later after es) ≡ later after (sort_by newer es)
later-sort_by after [] = refl
later-sort_by after (x ∷ es) = elim (Bool-cases (is_before after x)) [
  | inl e ↦ rw e (
      ap (insert_by newer x) (later-sort_by after es)
      ∙ sym (later-insert_by after x (sort_by newer es) ∙ rw e refl))
  | inr e ↦
      rw e (later-sort_by after es ∙ sym (later-insert_by after x (sort_by newer es) ∙ rw e refl))
]

-- No two events have the same identifier, which is the table's primary key.
abbrev pub Distinct : List AuditEvent → Type 0
Distinct [] = Unit
Distinct (x ∷ es) = All (λ (y : AuditEvent). y.id ≢ x.id) es × Distinct es

abbrev pub Below : ℕ → List AuditEvent → Type 0
Below a = All (λ (y : AuditEvent). y.id < a)

-- Ordered by identifiers that decrease.
abbrev pub Decreasing : List AuditEvent → Type 0
Decreasing [] = Unit
Decreasing (x ∷ es) = Below x.id es × Decreasing es

module _ (P : AuditEvent → Type 0) where
  All-filter : (p : AuditEvent → Bool) (es : List AuditEvent) → All P es → All P (filter p es)
  All-filter p [] a = tt
  All-filter p (e ∷ es) a = elim (Bool-cases (p e)) [
    | inl f ↦ rw f (a.0, All-filter p es a.1)
    | inr f ↦ rw f (All-filter p es a.1)
  ]

  All-insert_by :
      (x : AuditEvent) (es : List AuditEvent) → P x → All P es → All P (insert_by newer x es)
  All-insert_by x [] h a = (h, tt)
  All-insert_by x (e ∷ es) h a = elim (Bool-cases (newer e x)) [
    | inl f ↦ rw f (a.0, All-insert_by x es h a.1)
    | inr f ↦ rw f (h, a)
  ]

  All-sort_by : (es : List AuditEvent) → All P es → All P (sort_by newer es)
  All-sort_by [] a = tt
  All-sort_by (e ∷ es) a = All-insert_by e (sort_by newer es) a.0 (All-sort_by es a.1)

Below-lower : (a b : ℕ) (es : List AuditEvent) → a ≤ b → Below a es → Below b es
Below-lower a b [] h l = tt
Below-lower a b (e ∷ es) h l = (omega (arith, l.0), Below-lower a b es h l.1)

pub Distinct-filter :
    (p : AuditEvent → Bool) (es : List AuditEvent) → Distinct es → Distinct (filter p es)
Distinct-filter p [] u = tt
Distinct-filter p (e ∷ es) u = elim (Bool-cases (p e)) [
  | inl f ↦ rw f (All-filter (λ (y : AuditEvent). y.id ≢ e.id) p es u.0, Distinct-filter p es u.1)
  | inr f ↦ rw f (Distinct-filter p es u.1)
]

insert_by-Decreasing :
    (x : AuditEvent) (es : List AuditEvent)
    → Decreasing es
    → All (λ (y : AuditEvent). y.id ≢ x.id) es
    → Decreasing (insert_by newer x es)
insert_by-Decreasing x [] d a = (tt, tt)
insert_by-Decreasing x (e ∷ es) d a = elim (Bool-cases (newer e x)) [
  | inl f ↦ rw f (
    All-insert_by (λ (y : AuditEvent). y.id < e.id) x es (ground arith) d.0,
    insert_by-Decreasing x es d.1 a.1,
  )
  | inr f ↦
      let below : e.id < x.id = ground (arith, a.0) in
      rw f ((below, Below-lower e.id x.id es (omega arith) d.0), d)
]

pub sort_by-Decreasing : (es : List AuditEvent) → Distinct es → Decreasing (sort_by newer es)
sort_by-Decreasing [] u = tt
sort_by-Decreasing (e ∷ es) u =
    insert_by-Decreasing e (sort_by newer es) (sort_by-Decreasing es u.1)
      (All-sort_by (λ (y : AuditEvent). y.id ≢ e.id) es u.0)

pub filter-Decreasing :
    (p : AuditEvent → Bool) (es : List AuditEvent) → Decreasing es → Decreasing (filter p es)
filter-Decreasing p [] d = tt
filter-Decreasing p (e ∷ es) d = elim (Bool-cases (p e)) [
  | inl f ↦ rw f (All-filter (λ (y : AuditEvent). y.id < e.id) p es d.0, filter-Decreasing p es d.1)
  | inr f ↦ rw f (filter-Decreasing p es d.1)
]

all_later : (a : ℕ) (es : List AuditEvent) → Below a es → later (some a) es ≡ es
all_later a [] l = refl
all_later a (e ∷ es) l =
    let rest = all_later a es l.1 in
    let here : ltb e.id a ≡ true = ground (arith, l.0) in rw here (ap (λ x. e ∷ x) rest)

-- After the last event of a page come the others.
pub cursor_lem :
    (n : ℕ) (es : List AuditEvent)
    → Decreasing es
    → n < length es
    → (c : ℕ) × (last_id (λ e. e.id) (take (suc n) es) ≡ some c)
      × (later (some c) es ≡ drop (suc n) es)
      × ((b : ℕ) → Below b es → c < b)
cursor_lem n [] d few = absurd (omega arith)
cursor_lem zero (x ∷ es) d few =
    let here : ltb x.id x.id ≡ false = ground arith in
    (x.id, refl, rw here (all_later x.id es d.0), λ b l. l.0)
cursor_lem (suc n) (x ∷ []) d few = absurd (omega arith)
cursor_lem (suc n) (x ∷ y ∷ es) d few =
    let (c, last, rest, least) = cursor_lem n (y ∷ es) d.1 (omega arith) in
    let below = least x.id d.0 in
    let here : ltb x.id c ≡ false = ground arith in (c, last, rw here rest, λ b l. least b l.1)

pub take-take : (m n : ℕ) (es : List AuditEvent) → m ≤ n → take m (take n es) ≡ take m es
take-take zero n es h = refl
take-take (suc m) zero es h = absurd (omega arith)
take-take (suc m) (suc n) [] h = refl
take-take (suc m) (suc n) (e ∷ es) h = ap (λ x. e ∷ x) (take-take m n es (omega arith))

pub longer :
    (m n : ℕ) (es : List AuditEvent) → m < n → ltb m (length (take n es)) ≡ ltb m (length es)
longer m zero es h = absurd (omega arith)
longer m (suc n) [] h = refl
longer zero (suc n) (e ∷ es) h = ground arith
longer (suc m) (suc n) (e ∷ es) h = ground (arith, longer m n es)

pub take_all : (n : ℕ) (es : List AuditEvent) → length es ≤ n → take n es ≡ es
take_all zero [] h = refl
take_all zero (e ∷ es) h = absurd (omega arith)
take_all (suc n) [] h = refl
take_all (suc n) (e ∷ es) h = ap (λ x. e ∷ x) (take_all n es (omega arith))

pub take-drop : (n : ℕ) (es : List AuditEvent) → take n es ++ drop n es ≡ es
take-drop zero es = refl
take-drop (suc n) [] = refl
take-drop (suc n) (e ∷ es) = ap (λ x. e ∷ x) (take-drop n es)

pub drop_shorter :
    (n : ℕ) (es : List AuditEvent) → n < length es → length (drop (suc n) es) < length es
drop_shorter n [] h = absurd (omega arith)
drop_shorter zero (e ∷ es) h = omega arith
drop_shorter (suc n) (e ∷ es) h = omega (arith, drop_shorter n es (omega arith))

pub later-none : (es : List AuditEvent) → later none es ≡ es
later-none [] = refl
later-none (e ∷ es) = ap (λ x. e ∷ x) (later-none es)

later-Below : (a : ℕ) (es : List AuditEvent) → Below a (later (some a) es)
later-Below a [] = tt
later-Below a (e ∷ es) = elim (Bool-cases (ltb e.id a)) [
  | inl f ↦ rw f (ground arith, later-Below a es)
  | inr f ↦ rw f (later-Below a es)
]

later-later :
    (a c : ℕ) (es : List AuditEvent)
    → c ≤ a
    → later (some c) (later (some a) es) ≡ later (some c) es
later-later a c [] h = refl
later-later a c (e ∷ es) h = ground (arith, later-later a c es)

pub narrower :
    (after : Option Uuid) (c : ℕ) (es : List AuditEvent)
    → ((b : ℕ) → Below b (later after es) → c < b)
    → later (some c) (later after es) ≡ later (some c) es
narrower none c es least = ap (later (some c)) (later-none es)
narrower (some a) c es least =
    let below = least a (later-Below a es) in later-later a c es (omega arith)
