-- ===== src/Infrastructure/RateLimits.antt =====
-- infrastructure/in_memory_fixed_window_rate_limiter.py, with the rules and decisions that the
-- limiter over Redis shares: limits on the calls in a window of time. An instant is a number of
-- nanoseconds, where the source's is a floating-point number of seconds; logging is left out.
pub mod Windows
use muxivo_console.Shared.{
  ℕ, ◌+◌, ◌-◌, ◌*◌, Bool, true, false, not, ◌≡◌, ◌↔◌, Option, none, some, List, [], ◌∷◌, Text,
  text_eq, ltb, leb, Result, ok, raise_unless, if◌then◌else◌, Keys, get, set, ◌&&◌, ◌++◌,
}
use Prim.Native.Nat.{◌/◌, max}
use muxivo_console.Shared.{eq_of_text_eq, text_eq_refl, refl, arith, ap}

pub record RateLimitRule : Type 0 where
  pub limit : ℕ
  pub window_seconds : ℕ

pub data RateLimitError : Type 0 where
  limit_too_small window_too_small : RateLimitError

-- `RateLimitRule.__post_init__`
unfoldable pub rate_limit_rule : RateLimitRule → Result RateLimitError RateLimitRule
rate_limit_rule r =
    raise_unless (not (ltb r.limit 1)) RateLimitError.limit_too_small
      (raise_unless (not (ltb r.window_seconds 1)) RateLimitError.window_too_small (ok r))

pub record RateLimitBucket : Type 0 where
  pub count : ℕ
  pub reset_at : ℕ

pub record RateLimitDecision : Type 0 where
  pub allowed : Bool
  pub retry_after_seconds : ℕ

abbrev pub allow : RateLimitDecision
allow = record { allowed = true; retry_after_seconds = 0 }

abbrev pub refuse : ℕ → RateLimitDecision
refuse n = record { allowed = false; retry_after_seconds = n }

abbrev pub second : ℕ
second = 1000000000

-- A bucket's key: the scope and the caller.
abbrev pub BucketKey : Type 0
BucketKey = Text × Text

abbrev pub same_bucket : BucketKey → BucketKey → Bool
same_bucket (s, k) (t, j) = text_eq s t && text_eq k j

abbrev pub Buckets : Type 0
Buckets = List (BucketKey × RateLimitBucket)

pub same_bucket_iff : (a b : BucketKey) → (same_bucket a b ≡ true) ↔ (a ≡ b)
same_bucket_iff (s, k) (t, j) = (
  λ h.
      let scopes : s ≡ t = eq_of_text_eq s t (ground arith) in
      let callers : k ≡ j = eq_of_text_eq k j (ground arith) in cc,
  λ e.
      rw (← ap (λ (x : BucketKey). x.0) e, ← ap (λ (x : BucketKey). x.1) e)
        (ground (arith, text_eq_refl s, text_eq_refl k)),
)

instance abbrev pub bucket_keys : Keys BucketKey
bucket_keys = record { same = same_bucket; same_iff = same_bucket_iff }

-- The part of `InMemoryFixedWindowRateLimiter.check` from a rule on, in the order of its branches.
unfoldable pub check_rule : RateLimitRule → ℕ → BucketKey → Buckets → RateLimitDecision × Buckets
check_rule rule now k buckets =
    let opened =
      set k (record { count = 1; reset_at = now + rule.window_seconds * second }) buckets in
    elim (get k buckets) [
      | none ↦ (allow, opened)
      | some b ↦
          if leb b.reset_at now
          then (allow, opened)
          else if leb rule.limit b.count
          then (refuse (max 1 ((b.reset_at - now) / second)), buckets)
          else (allow, set k (record b { count = b.count + 1 }) buckets)
    ]

-- `InMemoryFixedWindowRateLimiter.check`
unfoldable pub check :
    (Text → Option RateLimitRule) → ℕ → BucketKey → Buckets → RateLimitDecision × Buckets
check rules now (scope, key) buckets = elim (rules scope) [
  | none ↦ (allow, buckets)
  | some rule ↦ check_rule rule now (scope, key) buckets
]

pub record RateLimitCall : Type 0 where
  pub now : ℕ
  pub bucket : BucketKey
