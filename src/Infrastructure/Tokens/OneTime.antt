-- ===== src/Infrastructure/Tokens/OneTime.antt =====
-- A value that was put is consumed once at most.
use muxivo_console.Shared.{
  ℕ, ◌+◌, ◌≤◌, Bool, true, false, ◌≡◌, ◌≢◌, refl, arith, Option, none, some, List, [], ◌∷◌, Text,
  text_eq, text_eq_refl, eq_of_text_eq, is_some, if◌then◌else◌, get, set, delete, IsDict, get-set,
  get-set_ne, get-delete, get-delete_ne, get-keep, set-IsDict, delete-IsDict, keep-IsDict, ◌&&◌,
  Bool-cases, Option-cases, inl, inr, one_if,
}
use muxivo_console.Infrastructure.Tokens.{
  TokenCall, Store, Entry, text_keys, is_live, purge_expired, expires_at, put_token, get_token,
  replace_token, consume_token, token_step, holds, text_eq_iff,
}

-- 1 if the store has an entry for the key, and else 0.
abbrev pub entries : Text → Store → ℕ
entries key store = if is_some (get key store) then 1 else 0

purge_entries :
    (key : Text) (now : ℕ) (store : Store)
    → IsDict store
    → entries key (purge_expired now store) ≤ entries key store
purge_entries key now store good =
    rw (get-keep key (is_live now) store good) (elim (Option-cases (get key store)) [
      | inl e ↦ rw e (omega arith)
      | inr (v, e) ↦ elim (Bool-cases (is_live now v)) [
        | inl live ↦ rw e (rw live (omega arith))
        | inr dead ↦ rw e (rw dead (omega arith))
      ]
    ])

-- 1 for the key itself.
abbrev one_for : Text → Text → ℕ
one_for key k = if text_eq k key then 1 else 0

entries-set :
    (key k : Text) (v : Entry) (store : Store)
    → entries key (set k v store) ≤ one_for key k + entries key store
entries-set key k v store = elim (Bool-cases (text_eq k key)) [
  | inl e ↦
      let same : k ≡ key = eq_of_text_eq k key e in
      rw same (rw (get-set key v store) (rw (text_eq_refl key) (omega arith)))
  | inr e ↦
      let ne : k ≢ key = λ same. cc (e, (text_eq_iff k key).1 same) in
      rw (get-set_ne key k v store ne) (rw e (omega arith))
]

entries-replace :
    (key k : Text) (v : Entry) (store : Store)
    → is_some (get k store) ≡ true
    → entries key (set k v store) ≡ entries key store
entries-replace key k v store present = elim (Bool-cases (text_eq k key)) [
  | inl e ↦
      let same : k ≡ key = eq_of_text_eq k key e in
      let here : is_some (get key store) ≡ true = rw (← same) present in
      rw same (rw (get-set key v store) (rw here refl))
  | inr e ↦
      let ne : k ≢ key = λ same. cc (e, (text_eq_iff k key).1 same) in
      rw (get-set_ne key k v store ne) refl
]

entries-delete :
    (key k : Text) (store : Store)
    → IsDict store
    → is_some (get k store) ≡ true
    → one_for key k + entries key (delete k store) ≤ entries key store
entries-delete key k store good present = elim (Bool-cases (text_eq k key)) [
  | inl e ↦
      let same : k ≡ key = eq_of_text_eq k key e in
      let here : is_some (get key store) ≡ true = rw (← same) present in
      rw same (rw (get-delete key store good) (rw (text_eq_refl key) (rw here (omega arith))))
  | inr e ↦
      let ne : k ≢ key = λ same. cc (e, (text_eq_iff k key).1 same) in
      rw (get-delete_ne key k store ne) (rw e (omega arith))
]

-- The calls that add an entry for the key, and those that consume one, if they succeed.
abbrev pub is_put_of : Text → TokenCall → Bool
is_put_of key (TokenCall.to_put now then_now k value ttl) = text_eq k key
is_put_of key _ = false

abbrev pub is_consume_of : Text → TokenCall → Bool
is_consume_of key (TokenCall.to_consume now k value) = text_eq k key
is_consume_of key _ = false

holds-is_some : (e : Option Entry) (value : Text) → holds e value ≡ true → is_some e ≡ true
holds-is_some none value h = cc
holds-is_some (some e) value h = refl

step_entries :
    (key : Text) (c : TokenCall) (store : Store)
    → IsDict store
    → let (done, store') = token_step c store in
      one_if (is_consume_of key c && done) + entries key store'
      ≤ one_if (is_put_of key c && done) + entries key store
unfolding token_step put_token replace_token get_token consume_token
step_entries key (TokenCall.to_put now then_now k value ttl) store good =
    let live = purge_expired now store in
    let fewer = purge_entries key now store good in
    elim (Bool-cases (is_some (get k live))) [
      | inl e ↦ rw e (ground (arith, fewer))
      | inr e ↦
          rw e (ground (arith, fewer, entries-set key k (value, expires_at then_now ttl) live))
    ]
step_entries key (TokenCall.to_replace now then_now k value ttl) store good =
    let live = purge_expired now store in
    let fewer = purge_entries key now store good in
    elim (Bool-cases (is_some (get k live))) [
      | inl e ↦
          rw e (omega (arith, fewer, entries-replace key k (value, expires_at then_now ttl) live e))
      | inr e ↦ rw e (omega (arith, fewer))
    ]
step_entries key (TokenCall.to_get now k) store good =
    omega (arith, purge_entries key now store good)
step_entries key (TokenCall.to_consume now k value) store good =
    let live = purge_expired now store in
    let fewer = purge_entries key now store good in
    elim (Bool-cases (holds (get k live) value)) [
      | inl e ↦
          let less =
            entries-delete key k live (keep-IsDict (is_live now) store good)
              (holds-is_some (get k live) value e) in
          rw e (ground (arith, fewer, less))
      | inr e ↦ rw e (ground (arith, fewer))
    ]

pub token_step-IsDict :
    (c : TokenCall) (store : Store) → IsDict store → IsDict (token_step c store).1
unfolding token_step put_token replace_token get_token consume_token
token_step-IsDict (TokenCall.to_put now then_now k value ttl) store good =
    let kept = keep-IsDict (is_live now) store good in
    elim (Bool-cases (is_some (get k (purge_expired now store)))) [
      | inl e ↦ rw e kept
      | inr e ↦ rw e (set-IsDict k (value, expires_at then_now ttl) (purge_expired now store) kept)
    ]
token_step-IsDict (TokenCall.to_replace now then_now k value ttl) store good =
    let kept = keep-IsDict (is_live now) store good in
    elim (Bool-cases (is_some (get k (purge_expired now store)))) [
      | inl e ↦ rw e (set-IsDict k (value, expires_at then_now ttl) (purge_expired now store) kept)
      | inr e ↦ rw e kept
    ]
token_step-IsDict (TokenCall.to_get now k) store good = keep-IsDict (is_live now) store good
token_step-IsDict (TokenCall.to_consume now k value) store good =
    let kept = keep-IsDict (is_live now) store good in
    elim (Bool-cases (holds (get k (purge_expired now store)) value)) [
      | inl e ↦ rw e (delete-IsDict k (purge_expired now store) kept)
      | inr e ↦ rw e kept
    ]

-- How many of the calls that meet the test succeed.
unfoldable pub successes : (TokenCall → Bool) → List TokenCall → Store → ℕ
successes p [] store = 0
successes p (c ∷ cs) store =
    let (done, store') = token_step c store in one_if (p c && done) + successes p cs store'

consumed_entries :
    (key : Text) (cs : List TokenCall) (store : Store)
    → IsDict store
    → successes (is_consume_of key) cs store
      ≤ successes (is_put_of key) cs store + entries key store
unfolding successes
consumed_entries key [] store good = omega arith
consumed_entries key (c ∷ cs) store good = omega (
  arith,
  step_entries key c store good,
  consumed_entries key cs (token_step c store).1 (token_step-IsDict c store good),
)

-- In any sequence of calls from an empty store, at whatever instants, a key is consumed at most as
-- often as it was put: no value is consumed twice.
pub consumed_once :
    (key : Text) (cs : List TokenCall)
    → successes (is_consume_of key) cs [] ≤ successes (is_put_of key) cs []
consumed_once key cs = omega (arith, consumed_entries key cs [] tt)
