-- ===== src/Infrastructure/Tokens/Refinement.antt =====
-- What the store of tokens promises: a table of values with their expiry, from which nothing is ever
-- purged. `InMemoryOneTimeTokenStore` is shown to implement it.
use muxivo_console.Shared.{
  ℕ, ◌≤◌, Bool, true, false, ◌≡◌, ◌≢◌, refl, arith, Option, none, some, List, [], ◌∷◌, Text,
  text_eq, eq_of_text_eq, is_some, if◌then◌else◌, get, set, delete, only, IsDict, get-set,
  get-set_ne, get-delete, get-delete_ne, get-keep, keep-IsDict, ap, sym, ◌∙◌, Bool-cases, inl, inr,
}
use muxivo_console.Infrastructure.Tokens.{
  TokenCall, Store, Entry, text_keys, text_eq_iff, is_live, purge_expired, expires_at, put_token,
  get_token, replace_token, consume_token, token_step, holds, value_of,
}
use muxivo_console.Infrastructure.Tokens.OneTime.{token_step-IsDict}
use muxivo_console.Infrastructure.Tokens.Expiry.{instant_of}

-- What a call answers: whether it was made, or the value that was found.
pub data Answer : Type 0 where
  made : Bool → Answer
  found : Option Text → Answer

-- A call on the store, with its answer.
unfoldable pub store_step : TokenCall → Store → Answer × Store
unfolding put_token get_token replace_token consume_token
store_step (TokenCall.to_put now then_now key value ttl) s =
    let (b, s') = put_token now then_now key value ttl s in (made b, s')
store_step (TokenCall.to_replace now then_now key value ttl) s =
    let (b, s') = replace_token now then_now key value ttl s in (made b, s')
store_step (TokenCall.to_get now key) s = let (v, s') = get_token now key s in (found v, s')
store_step (TokenCall.to_consume now key value) s =
    let (b, s') = consume_token now key value s in (made b, s')

abbrev pub Table : Type 0
Table = Text → Option Entry

abbrev pub live : ℕ → Option Entry → Option Entry
live now = only (is_live now)

abbrev pub override : Text → Option Entry → Table → Table
override key o f j = if text_eq key j then o else f j

-- The specification of a call.
unfoldable pub table_step : TokenCall → Table → Answer × Table
table_step (TokenCall.to_put now then_now key value ttl) f =
    if is_some (live now (f key))
    then (made false, f)
    else (made true, override key (some (value, expires_at then_now ttl)) f)
table_step (TokenCall.to_replace now then_now key value ttl) f =
    if is_some (live now (f key))
    then (made true, override key (some (value, expires_at then_now ttl)) f)
    else (made false, f)
table_step (TokenCall.to_get now key) f = (found (value_of (live now (f key))), f)
table_step (TokenCall.to_consume now key value) f =
    if holds (live now (f key)) value then (made true, override key none f) else (made false, f)

unfoldable pub store_answers : List TokenCall → Store → List Answer
store_answers [] s = []
store_answers (c ∷ cs) s = (store_step c s).0 ∷ store_answers cs (store_step c s).1

unfoldable pub table_answers : List TokenCall → Table → List Answer
table_answers [] f = []
table_answers (c ∷ cs) f = (table_step c f).0 ∷ table_answers cs (table_step c f).1

-- The store and the table have the same live entries at every instant from `now` on.
abbrev pub Refines : ℕ → Store → Table → Type 0
Refines now s f = (t : ℕ) → now ≤ t → (k : Text) → live t (get k s) ≡ live t (f k)

live-live : (n t : ℕ) (o : Option Entry) → n ≤ t → live t (live n o) ≡ live t o
live-live n t none h = refl
live-live n t (some (value, e)) h = ground arith

module _ (now : ℕ) (s : Store) (f : Table) (good : IsDict s) (same : Refines now s f) where
  purge-Refines : Refines now (purge_expired now s) f
  purge-Refines t h k =
      ap (live t) (get-keep k (is_live now) s good) ∙ live-live now t (get k s) h ∙ same t h k

  purged : (k : Text) → get k (purge_expired now s) ≡ live now (f k)
  purged k = get-keep k (is_live now) s good ∙ same now (omega arith) k

  set-Refines :
      (key : Text) (e : Entry)
      → Refines now (set key e (purge_expired now s)) (override key (some e) f)
  set-Refines key e t h k = elim (Bool-cases (text_eq key k)) [
    | inl eq ↦
        let here : key ≡ k = eq_of_text_eq key k eq in
        rw eq (
          ap (live t) (
            ap (λ x. get x (set key e (purge_expired now s))) (sym here)
            ∙ get-set key e (purge_expired now s)))
    | inr ne ↦
        let away : key ≢ k = λ eq. cc (ne, (text_eq_iff key k).1 eq) in
        rw ne (ap (live t) (get-set_ne k key e (purge_expired now s) away) ∙ purge-Refines t h k)
  ]

  delete-Refines :
      (key : Text) → Refines now (delete key (purge_expired now s)) (override key none f)
  delete-Refines key t h k = elim (Bool-cases (text_eq key k)) [
    | inl eq ↦
        let here : key ≡ k = eq_of_text_eq key k eq in
        rw eq (
          ap (live t) (
            ap (λ x. get x (delete key (purge_expired now s))) (sym here)
            ∙ get-delete key (purge_expired now s) (keep-IsDict (is_live now) s good)))
    | inr ne ↦
        let away : key ≢ k = λ eq. cc (ne, (text_eq_iff key k).1 eq) in
        rw ne (ap (live t) (get-delete_ne k key (purge_expired now s) away) ∙ purge-Refines t h k)
  ]

-- One call: the same answer, and again the same live entries.
abbrev StepRefines : TokenCall → Store → Table → Type 0
StepRefines c s f =
    ((store_step c s).0 ≡ (table_step c f).0)
    × Refines (instant_of c) (store_step c s).1 (table_step c f).1

step-Refines :
    (c : TokenCall) (s : Store) (f : Table)
    → IsDict s
    → Refines (instant_of c) s f
    → StepRefines c s f
unfolding store_step table_step put_token get_token replace_token consume_token
step-Refines (TokenCall.to_put now then_now key value ttl) s f good same =
    let e : Entry = (value, expires_at then_now ttl) in
    elim (Bool-cases (is_some (live now (f key)))) [
      | inl h ↦ rw (purged now s f good same key) (rw h (refl, purge-Refines now s f good same))
      | inr h ↦ rw (purged now s f good same key) (rw h (refl, set-Refines now s f good same key e))
    ]
step-Refines (TokenCall.to_replace now then_now key value ttl) s f good same =
    let e : Entry = (value, expires_at then_now ttl) in
    elim (Bool-cases (is_some (live now (f key)))) [
      | inl h ↦ rw (purged now s f good same key) (rw h (refl, set-Refines now s f good same key e))
      | inr h ↦ rw (purged now s f good same key) (rw h (refl, purge-Refines now s f good same))
    ]
step-Refines (TokenCall.to_get now key) s f good same =
    (ap (λ o. found (value_of o)) (purged now s f good same key), purge-Refines now s f good same)
step-Refines (TokenCall.to_consume now key value) s f good same =
    elim (Bool-cases (holds (live now (f key)) value)) [
      | inl h ↦
          rw (purged now s f good same key) (rw h (refl, delete-Refines now s f good same key))
      | inr h ↦ rw (purged now s f good same key) (rw h (refl, purge-Refines now s f good same))
    ]

store_step-IsDict : (c : TokenCall) (s : Store) → IsDict s → IsDict (store_step c s).1
unfolding store_step token_step
store_step-IsDict (TokenCall.to_put n m k v ttl) s =
    token_step-IsDict (TokenCall.to_put n m k v ttl) s
store_step-IsDict (TokenCall.to_replace n m k v ttl) s =
    token_step-IsDict (TokenCall.to_replace n m k v ttl) s
store_step-IsDict (TokenCall.to_get n k) s = token_step-IsDict (TokenCall.to_get n k) s
store_step-IsDict (TokenCall.to_consume n k v) s = token_step-IsDict (TokenCall.to_consume n k v) s

-- The clock that the calls read does not go back.
abbrev pub InOrder : ℕ → List TokenCall → Type 0
InOrder now [] = Unit {0}
InOrder now (c ∷ cs) = (now ≤ instant_of c) × InOrder (instant_of c) cs

answers-Refines :
    (cs : List TokenCall) (now : ℕ) (s : Store) (f : Table)
    → InOrder now cs
    → IsDict s
    → Refines now s f
    → store_answers cs s ≡ table_answers cs f
unfolding store_answers table_answers
answers-Refines [] now s f order good same = refl
answers-Refines (c ∷ cs) now s f (first, order) good same =
    let later : Refines (instant_of c) s f = λ t h k. same t (omega arith) k in
    let (answer, next) = step-Refines c s f good later in
    let rest =
      answers-Refines cs (instant_of c) (store_step c s).1 (table_step c f).1 order
        (store_step-IsDict c s good) next in
    rw (answer, rest) refl

-- The store in memory, which purges expired entries at every call and keeps a dictionary, answers
-- every sequence of calls whose instants do not go back as the table does from which nothing is
-- purged and which has the same entries at the start: puts, gets, replacements and consumptions,
-- on any keys and in any order.
pub store-table_answers :
    (cs : List TokenCall) (now : ℕ) (s : Store)
    → InOrder now cs
    → IsDict s
    → store_answers cs s ≡ table_answers cs (λ k. get k s)
store-table_answers cs now s order good =
    answers-Refines cs now s (λ k. get k s) order good (λ t h k. refl)
