-- ===== src/Infrastructure/Redis/Clients.antt =====
-- The clients of Redis: `RedisOneTimeTokenStore`, `RedisFixedWindowCounter` and
-- `RedisFixedWindowRateLimiter`. A connection either fails, or carries the bytes that the server
-- sends until it closes it; the scripts run on the server. The first argument of each method is the
-- number of nested calls of the reader for which the stack has room. SHA-256 is a parameter; the URL is given
-- by its parts, and logging is left out.
use Prim.Native.Nat.{max}
use muxivo_console.Shared.{
  ℕ, ℤ, pos, negsuc, Bool, false, Option, none, some, List, [], ◌∷◌, ◌++◌, Text, codes, text_eq,
  ltb, ◌==◌, if◌then◌else◌, Result, ok, err,
}
use muxivo_console.Infrastructure.RateLimits.{RateLimitRule, RateLimitDecision, allow, refuse}
use muxivo_console.Infrastructure.Tokens.{lifetime}
use muxivo_console.Infrastructure.Redis.Numbers.{Bytes, decimal, strip_right}
use muxivo_console.Infrastructure.Redis.Encoding.{encode_redis_command}
use muxivo_console.Infrastructure.Redis.Reading.{
  Read, ReadError, done, failed, recursion_error, Reply, Replies, with_read, read_redis_value,
}

pub record RedisSettings : Type 0 where
  pub username : Option Text
  pub password : Option Text
  pub db : ℕ

abbrev pub auth_commands : RedisSettings → List (List Text)
auth_commands s = elim s.password [
  | none ↦ []
  | some p ↦ elim s.username [
    | none ↦ (codes "AUTH" ∷ p ∷ []) ∷ []
    | some u ↦ (codes "AUTH" ∷ u ∷ p ∷ []) ∷ []
  ]
]

abbrev pub select_commands : RedisSettings → List (List Text)
select_commands s = if s.db == 0 then [] else (codes "SELECT" ∷ decimal s.db ∷ []) ∷ []

-- The commands of one connection, the last of which is the one asked for.
abbrev pub commands_of : RedisSettings → List Text → List (List Text)
commands_of s parts = auth_commands s ++ (select_commands s ++ parts ∷ [])

-- Each command is written, and one reply is read; the last reply is returned.
unfoldable pub exchange : ℕ → Reply → List (List Text) → Bytes → Read Reply
exchange depth last [] bs = done last bs
exchange depth last (c ∷ cs) bs = elim (encode_redis_command c) [
  | none ↦ failed ReadError.value_error
  | some _ ↦ with_read (read_redis_value depth bs) λ r rest. exchange depth r cs rest
]

-- What the server sends over the connection, `none` where there is none or it times out.
abbrev pub Incoming : Type 0
Incoming = Option Bytes

-- `RedisOneTimeTokenStoreUnavailableError`, and the `RecursionError` that the store lets pass.
pub data StoreError : Type 0 where
  unavailable recursion_exceeded : StoreError

abbrev pub store_reply : Read Reply → Result StoreError Reply
store_reply (done r rest) = ok r
store_reply (failed e) = err StoreError.unavailable
store_reply recursion_error = err StoreError.recursion_exceeded

-- `RedisOneTimeTokenStore._command`
unfoldable pub store_command : ℕ → RedisSettings → Incoming → List Text → Result StoreError Reply
store_command depth s none parts = err StoreError.unavailable
store_command depth s (some bs) parts =
    store_reply (exchange depth Reply.nothing (commands_of s parts) bs)

abbrev pub is_text : Text → Reply → Bool
is_text t Reply.nothing = false
is_text t (Reply.text s) = text_eq s t
is_text t (Reply.number n) = false
is_text t (Reply.array rs) = false

abbrev pub is_number : ℕ → Reply → Bool
is_number k Reply.nothing = false
is_number k (Reply.text s) = false
is_number k (Reply.number (pos n)) = n == k
is_number k (Reply.number (negsuc n)) = false
is_number k (Reply.array rs) = false

abbrev pub tested : (Reply → Bool) → Result StoreError Reply → Result StoreError Bool
tested p (ok r) = ok (p r)
tested p (err e) = err e

-- `RedisOneTimeTokenStore.put`
unfoldable pub redis_put : ℕ → RedisSettings → Incoming → Text → Text → ℤ → Result StoreError Bool
redis_put depth s incoming key value ttl_seconds = tested (is_text (codes "OK")) (
    store_command depth s incoming
      (codes "SET" ∷ key ∷ value ∷ codes "EX" ∷ decimal (lifetime ttl_seconds) ∷ codes "NX" ∷ []))

abbrev pub text_or_none : Result StoreError Reply → Result StoreError (Option Text)
text_or_none (ok Reply.nothing) = ok none
text_or_none (ok (Reply.text s)) = ok (some s)
text_or_none (ok (Reply.number n)) = err StoreError.unavailable
text_or_none (ok (Reply.array rs)) = err StoreError.unavailable
text_or_none (err e) = err e

-- `RedisOneTimeTokenStore.get`
unfoldable pub redis_get : ℕ → RedisSettings → Incoming → Text → Result StoreError (Option Text)
redis_get depth s incoming key =
    text_or_none (store_command depth s incoming (codes "GET" ∷ key ∷ []))

-- `RedisOneTimeTokenStore.replace`
unfoldable pub redis_replace :
    ℕ → RedisSettings → Incoming → Text → Text → ℤ → Result StoreError Bool
redis_replace depth s incoming key value ttl_seconds = tested (is_text (codes "OK")) (
    store_command depth s incoming
      (codes "SET" ∷ key ∷ value ∷ codes "EX" ∷ decimal (lifetime ttl_seconds) ∷ []))

abbrev pub consume_script : Text
consume_script =
    codes "if redis.call('GET', KEYS[1]) == ARGV[1] then "
    ++ codes "return redis.call('DEL', KEYS[1]); else return 0; end;"

-- `RedisOneTimeTokenStore.consume`
unfoldable pub redis_consume : ℕ → RedisSettings → Incoming → Text → Text → Result StoreError Bool
redis_consume depth s incoming key value =
    tested (is_number 1) (
      store_command depth s incoming (codes "EVAL" ∷ consume_script ∷ codes "1" ∷ key ∷ value ∷ []))

-- `RedisRateLimitUnavailableError`, and the `IncompleteReadError` and the `RecursionError` that the
-- counter lets pass.
pub data CounterError : Type 0 where
  counter_unavailable read_incomplete recursion_exceeded : CounterError

abbrev pub counter_error : ReadError → CounterError
counter_error ReadError.incomplete = CounterError.read_incomplete
counter_error ReadError.value_error = CounterError.counter_unavailable
counter_error ReadError.unsupported = CounterError.counter_unavailable
counter_error (ReadError.server_error s) = CounterError.counter_unavailable

-- `max(1, n)`
abbrev pub at_least_one : ℤ → ℕ
at_least_one (pos n) = max 1 n
at_least_one (negsuc n) = 1

-- The check of the reply: a list of two integers.
abbrev pub counted : Reply → Result CounterError (ℤ × ℕ)
counted (Reply.array (Replies.cons (Reply.number c) (Replies.cons (Reply.number t) Replies.nil))) =
    ok (c, at_least_one t)
counted _ = err CounterError.counter_unavailable

abbrev pub counter_reply : Read Reply → Result CounterError (ℤ × ℕ)
counter_reply (done r rest) = counted r
counter_reply (failed e) = err (counter_error e)
counter_reply recursion_error = err CounterError.recursion_exceeded

abbrev pub window_script : Text
window_script =
    codes "local current = redis.call('INCR', KEYS[1]); "
    ++ codes "if current == 1 then redis.call('EXPIRE', KEYS[1], ARGV[1]); end; "
    ++ codes "local ttl = redis.call('TTL', KEYS[1]); "
    ++ codes "return {current, ttl};"

abbrev pub window_command : Text → ℕ → List Text
window_command key window_seconds =
    codes "EVAL" ∷ window_script ∷ codes "1" ∷ key ∷ decimal window_seconds ∷ []

-- `RedisFixedWindowCounter.increment_windowed`
unfoldable pub increment_windowed :
    ℕ → RedisSettings → Incoming → Text → ℕ → Result CounterError (ℤ × ℕ)
increment_windowed depth s none key window_seconds = err CounterError.counter_unavailable
increment_windowed depth s (some bs) key window_seconds =
    counter_reply
      (exchange depth Reply.nothing (commands_of s (window_command key window_seconds)) bs)

-- `count > limit`
abbrev pub exceeds : ℤ → ℕ → Bool
exceeds (pos n) limit = ltb limit n
exceeds (negsuc n) limit = false

abbrev pub decision_on :
    RateLimitRule → Result CounterError (ℤ × ℕ) → Result CounterError RateLimitDecision
decision_on rule (ok (c, ttl)) = if exceeds c rule.limit then ok (refuse ttl) else ok allow
decision_on rule (err CounterError.counter_unavailable) = ok (refuse rule.window_seconds)
decision_on rule (err CounterError.read_incomplete) = err CounterError.read_incomplete
decision_on rule (err CounterError.recursion_exceeded) = err CounterError.recursion_exceeded

module _ (sha256_hex : Text → Text) where
  -- `_redis_key`, over a prefix that the constructor strips.
  abbrev pub redis_key : Text → Text → Text → Text
  redis_key key_prefix scope key =
      strip_right (λ c. c == 58) key_prefix
      ++ (codes ":" ++ (scope ++ (codes ":" ++ sha256_hex (scope ++ (codes ":" ++ key)))))

  -- `RedisFixedWindowRateLimiter.check`
  unfoldable pub redis_check :
      ℕ
      → (Text → Option RateLimitRule)
      → RedisSettings
      → Incoming
      → Text
      → Text
      → Text
      → Result CounterError RateLimitDecision
  redis_check depth rules s incoming key_prefix scope key = elim (rules scope) [
    | none ↦ ok allow
    | some rule ↦
        decision_on rule
          (increment_windowed depth s incoming (redis_key key_prefix scope key) rule.window_seconds)
  ]
