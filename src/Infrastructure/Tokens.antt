-- ===== src/Infrastructure/Tokens.antt =====
-- infrastructure/in_memory_one_time_token_store.py: values that expire and that are consumed once.
-- An instant is a number of microseconds; each call reads the clock when it purges the store, and
-- a second time for the expiry that it writes.
pub mod OneTime
pub mod Expiry
pub mod Refinement
use Prim.Native.Nat.{max}
use muxivo_console.Shared.{
  ℕ, ◌+◌, ◌*◌, ℤ, pos, negsuc, Bool, true, false, not, ◌≡◌, ◌↔◌, refl, Option, none, some, List, [],
  ◌∷◌, Text, text_eq, text_eq_refl, eq_of_text_eq, ltb, is_some, if◌then◌else◌, Keys, get, set,
  delete, keep, ◌&&◌, ap,
}

pub text_eq_iff : (s t : Text) → (text_eq s t ≡ true) ↔ (s ≡ t)
text_eq_iff s t = (eq_of_text_eq s t, λ e. rw (← e) (text_eq_refl s))

instance abbrev pub text_keys : Keys Text
text_keys = record { same = text_eq; same_iff = text_eq_iff }

-- The value and the instant at which it expires.
abbrev pub Entry : Type 0
Entry = Text × ℕ

abbrev pub Store : Type 0
Store = List (Text × Entry)

abbrev pub is_live : ℕ → Entry → Bool
is_live now (value, expires) = ltb now expires

-- `_purge_expired`
abbrev pub purge_expired : ℕ → Store → Store
purge_expired now = keep (is_live now)

-- `max(1, ttl_seconds)`
abbrev pub lifetime : ℤ → ℕ
lifetime (pos n) = max 1 n
lifetime (negsuc n) = 1

-- `_expires_at`
abbrev pub expires_at : ℕ → ℤ → ℕ
expires_at now ttl_seconds = now + lifetime ttl_seconds * 1000000

unfoldable pub put_token : ℕ → ℕ → Text → Text → ℤ → Store → Bool × Store
put_token now then_now key value ttl store =
    let live = purge_expired now store in
    if is_some (get key live)
    then (false, live)
    else (true, set key (value, expires_at then_now ttl) live)

abbrev pub value_of : Option Entry → Option Text
value_of none = none
value_of (some (value, expires)) = some value

unfoldable pub get_token : ℕ → Text → Store → Option Text × Store
get_token now key store = let live = purge_expired now store in (value_of (get key live), live)

unfoldable pub replace_token : ℕ → ℕ → Text → Text → ℤ → Store → Bool × Store
replace_token now then_now key value ttl store =
    let live = purge_expired now store in
    if not (is_some (get key live))
    then (false, live)
    else (true, set key (value, expires_at then_now ttl) live)

abbrev pub holds : Option Entry → Text → Bool
holds none value = false
holds (some (stored, expires)) value = text_eq stored value

unfoldable pub consume_token : ℕ → Text → Text → Store → Bool × Store
consume_token now key value store =
    let live = purge_expired now store in
    if holds (get key live) value then (true, delete key live) else (false, live)

-- A call with the instants at which it reads the clock.
pub data TokenCall : Type 0 where
  to_put to_replace : ℕ → ℕ → Text → Text → ℤ → TokenCall
  to_get : ℕ → Text → TokenCall
  to_consume : ℕ → Text → Text → TokenCall

abbrev pub key_of : TokenCall → Text
key_of (TokenCall.to_put now then_now key value ttl) = key
key_of (TokenCall.to_replace now then_now key value ttl) = key
key_of (TokenCall.to_get now key) = key
key_of (TokenCall.to_consume now key value) = key

-- Whether the call succeeds, a `get` if it returns a value, and the store after it.
unfoldable pub token_step : TokenCall → Store → Bool × Store
unfolding put_token replace_token get_token consume_token
token_step (TokenCall.to_put now then_now key value ttl) store =
    put_token now then_now key value ttl store
token_step (TokenCall.to_replace now then_now key value ttl) store =
    replace_token now then_now key value ttl store
token_step (TokenCall.to_get now key) store =
    let (found, store') = get_token now key store in (is_some found, store')
token_step (TokenCall.to_consume now key value) store = consume_token now key value store
