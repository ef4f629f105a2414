-- ===== src/Infrastructure/Tokens/Expiry.antt =====
-- How long a value that was put is returned.
use muxivo_console.Shared.{
  ℕ, ◌≤◌, ◌<◌, ℤ, true, false, ◌≡◌, ◌≢◌, refl, arith, none, some, List, [], ◌∷◌, Text, is_some, get,
  only, IsDict, get-set, get-set_ne, get-delete_ne, get-keep, keep-IsDict, set-IsDict, ap, ◌∙◌,
  Bool-cases, inl, inr, All,
}
use muxivo_console.Infrastructure.Tokens.{
  TokenCall, Store, Entry, text_keys, is_live, purge_expired, expires_at, put_token, get_token,
  replace_token, consume_token, token_step, key_of, holds, value_of,
}
use muxivo_console.Infrastructure.Tokens.OneTime.{token_step-IsDict}

-- The instant at which a call purges the store.
abbrev pub instant_of : TokenCall → ℕ
instant_of (TokenCall.to_put now then_now key value ttl) = now
instant_of (TokenCall.to_replace now then_now key value ttl) = now
instant_of (TokenCall.to_get now key) = now
instant_of (TokenCall.to_consume now key value) = now

module _ (key : Text) (e : Entry) where
  purge_keeps :
      (now : ℕ) (store : Store)
      → now < e.1
      → IsDict store
      → get key store ≡ some e
      → get key (purge_expired now store) ≡ some e
  purge_keeps now store early good h =
      let live : is_live now e ≡ true = ground arith in
      get-keep key (is_live now) store good ∙ rw h (rw live refl)

  step_keeps :
      (c : TokenCall) (store : Store)
      → key_of c ≢ key
      → instant_of c < e.1
      → IsDict store
      → get key store ≡ some e
      → get key (token_step c store).1 ≡ some e
  unfolding token_step put_token replace_token get_token consume_token
  step_keeps (TokenCall.to_put now then_now k value ttl) store ne early good h =
      let live = purge_expired now store in
      let kept = purge_keeps now store early good h in
      elim (Bool-cases (is_some (get k live))) [
        | inl f ↦ rw f kept
        | inr f ↦ rw f (get-set_ne key k (value, expires_at then_now ttl) live ne ∙ kept)
      ]
  step_keeps (TokenCall.to_replace now then_now k value ttl) store ne early good h =
      let live = purge_expired now store in
      let kept = purge_keeps now store early good h in
      elim (Bool-cases (is_some (get k live))) [
        | inl f ↦ rw f (get-set_ne key k (value, expires_at then_now ttl) live ne ∙ kept)
        | inr f ↦ rw f kept
      ]
  step_keeps (TokenCall.to_get now k) store ne early good h = purge_keeps now store early good h
  step_keeps (TokenCall.to_consume now k value) store ne early good h =
      let live = purge_expired now store in
      let kept = purge_keeps now store early good h in
      elim (Bool-cases (holds (get k live) value)) [
        | inl f ↦ rw f (get-delete_ne key k live ne ∙ kept)
        | inr f ↦ rw f kept
      ]

-- The calls one after another.
unfoldable pub run_tokens : List TokenCall → Store → Store
run_tokens [] store = store
run_tokens (c ∷ cs) store = run_tokens cs (token_step c store).1

-- Calls on other keys, at instants before this one.
abbrev pub Elsewhere : Text → ℕ → TokenCall → Type 0
Elsewhere key t c = (key_of c ≢ key) × (instant_of c < t)

run_keeps :
    (key : Text) (e : Entry) (cs : List TokenCall) (store : Store)
    → All (Elsewhere key e.1) cs
    → IsDict store
    → get key store ≡ some e
    → (get key (run_tokens cs store) ≡ some e) × IsDict (run_tokens cs store)
unfolding run_tokens
run_keeps key e [] store away good h = (h, good)
run_keeps key e (c ∷ cs) store ((ne, early), away) good h =
    run_keeps key e cs (token_step c store).1 away (token_step-IsDict c store good)
      (step_keeps key e c store ne early good h)

put_holds :
    (now then_now : ℕ) (key value : Text) (ttl : ℤ) (store : Store)
    → IsDict store
    → (put_token now then_now key value ttl store).0 ≡ true
    → let store' = (put_token now then_now key value ttl store).1 in
      (get key store' ≡ some (value, expires_at then_now ttl)) × IsDict store'
unfolding put_token
put_holds now then_now key value ttl store good done =
    let live = purge_expired now store in
    elim (Bool-cases (is_some (get key live))) [
      | inl f ↦ absurd (cc (rw f at done))
      | inr f ↦ rw f (
        get-set key (value, expires_at then_now ttl) live,
        set-IsDict key (value, expires_at then_now ttl) live (keep-IsDict (is_live now) store good),
      )
    ]

-- A value whose put succeeded, with any calls on other keys since, all before it expires, is
-- returned by a `get` at every instant before its expiry and by none from then on.
pub put_expires :
    (now then_now : ℕ) (key value : Text) (ttl : ℤ) (store : Store) (cs : List TokenCall) (t : ℕ)
    → IsDict store
    → (put_token now then_now key value ttl store).0 ≡ true
    → All (Elsewhere key (expires_at then_now ttl)) cs
    → let got =
        (get_token t key (run_tokens cs (put_token now then_now key value ttl store).1)).0 in
      (t < expires_at then_now ttl → got ≡ some value) × (expires_at then_now ttl ≤ t → got ≡ none)
unfolding get_token
put_expires now then_now key value ttl store cs t good done away =
    let (held, dict) = put_holds now then_now key value ttl store good done in
    let (kept, dict') =
      run_keeps key (value, expires_at then_now ttl) cs
        (put_token now then_now key value ttl store).1 away dict held in
    let found =
      get-keep key (is_live t) (run_tokens cs (put_token now then_now key value ttl store).1) dict'
      ∙ ap (only (is_live t)) kept in
    (
      λ early.
          let live : is_live t (value, expires_at then_now ttl) ≡ true = ground arith in
          ap value_of found ∙ rw live refl,
      λ late.
          let dead : is_live t (value, expires_at then_now ttl) ≡ false = ground arith in
          ap value_of found ∙ rw dead refl,
    )
