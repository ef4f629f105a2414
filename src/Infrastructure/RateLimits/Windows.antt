-- ===== src/Infrastructure/RateLimits/Windows.antt =====
-- What the limiter allows within one window.
use Prim.Native.Nat.{min}
use muxivo_console.Shared.{
  ℕ, suc, ◌+◌, ◌-◌, ◌*◌, ◌≤◌, ◌<◌, Bool, true, false, ◌≡◌, ◌≢◌, ◌⊎◌, ◌∙◌, inl, inr, refl, arith,
  Option, none, some, List, [], ◌∷◌, Text, leb, if◌then◌else◌, get, set, get-set, get-set_ne, ◌&&◌,
  count, Bool-cases, Option-cases,
}
use muxivo_console.Infrastructure.RateLimits.{
  RateLimitRule, RateLimitBucket, RateLimitCall, BucketKey, Buckets, bucket_keys, same_bucket,
  same_bucket_iff, second, check, check_rule, allow,
}

-- The bucket of a window that a call opens.
abbrev pub fresh : RateLimitRule → ℕ → RateLimitBucket
fresh rule now = record { count = 1; reset_at = now + rule.window_seconds * second }

module _ (rules : Text → Option RateLimitRule) where
  -- The buckets after the calls.
  abbrev pub is_for : BucketKey → RateLimitCall → Bool
  is_for k c = same_bucket c.bucket k

  -- How many of the calls for a bucket are allowed.
  unfoldable pub allowed_for : BucketKey → List RateLimitCall → Buckets → ℕ
  allowed_for k [] buckets = 0
  allowed_for k (c ∷ cs) buckets =
      let (decision, buckets') = check rules c.now c.bucket buckets in
      let rest = allowed_for k cs buckets' in
      if is_for k c && decision.allowed then suc rest else rest

  check_rule_others :
      (rule : RateLimitRule) (now : ℕ) (j k : BucketKey) (buckets : Buckets)
      → j ≢ k
      → get k (check_rule rule now j buckets).1 ≡ get k buckets
  unfolding check_rule
  check_rule_others rule now j k buckets ne =
      let opened = fresh rule now in
      elim (Option-cases (get j buckets)) [
        | inl e ↦ rw (e, check_rule) (get-set_ne k j opened buckets ne)
        | inr (b, e) ↦ elim (Bool-cases (leb b.reset_at now)) [
          | inl late ↦ rw (e, check_rule) (rw late (get-set_ne k j opened buckets ne))
          | inr early ↦ elim (Bool-cases (leb rule.limit b.count)) [
            | inl full ↦ rw (e, check_rule) (rw early (rw full refl))
            | inr free ↦
                rw (e, check_rule)
                  (rw early
                    (rw free (get-set_ne k j (record b { count = b.count + 1 }) buckets ne)))
          ]
        ]
      ]

  -- A call for another bucket leaves a bucket as it is.
  check_others :
      (now : ℕ) (j k : BucketKey) (buckets : Buckets)
      → j ≢ k
      → get k (check rules now j buckets).1 ≡ get k buckets
  unfolding check
  check_others now j k buckets ne = elim (Option-cases (rules j.0)) [
    | inl e ↦ rw (e, check) refl
    | inr (rule, e) ↦ rw (e, check) (check_rule_others rule now j k buckets ne)
  ]

  module _ (k : BucketKey) (rule : RateLimitRule) (ruled : rules k.0 ≡ some rule) where
    -- A call within the window of a bucket: it is refused if the bucket is full, and counted if not.
    check_within :
        (now : ℕ) (j : BucketKey) (b : RateLimitBucket) (buckets : Buckets)
        → j ≡ k
        → get k buckets ≡ some b
        → now < b.reset_at
        → let (decision, buckets') = check rules now j buckets in
          (rule.limit ≤ b.count) × (decision.allowed ≡ false) × (buckets' ≡ buckets)
          ⊎ (b.count < rule.limit)
            × (decision.allowed ≡ true)
            × (buckets' ≡ set k (record b { count = b.count + 1 }) buckets)
    unfolding check check_rule
    check_within now j b buckets own held early =
        let open_window : leb b.reset_at now ≡ false = ground arith in
        rw own (elim (Bool-cases (leb rule.limit b.count)) [
          | inl full ↦ inl (
            ground arith,
            rw (ruled, check) (rw (held, check_rule) (rw open_window (rw full refl))),
            rw (ruled, check) (rw (held, check_rule) (rw open_window (rw full refl))),
          )
          | inr free ↦ inr (
            ground arith,
            rw (ruled, check) (rw (held, check_rule) (rw open_window (rw free refl))),
            rw (ruled, check) (rw (held, check_rule) (rw open_window (rw free refl))),
          )
        ])

    -- The calls for the bucket come before the instant.
    abbrev pub Before : ℕ → List RateLimitCall → Type 0
    Before t [] = Unit
    Before t (c ∷ cs) = (is_for k c ≡ true → c.now < t) × Before t cs

    within_window :
        (cs : List RateLimitCall) (b : RateLimitBucket) (buckets : Buckets)
        → get k buckets ≡ some b
        → b.count ≤ rule.limit
        → Before b.reset_at cs
        → allowed_for k cs buckets ≡ min (count (is_for k) cs) (rule.limit - b.count)
    unfolding allowed_for
    within_window [] b buckets held room early = omega arith
    within_window (c ∷ cs) b buckets held room (first, later) = elim (Bool-cases (is_for k c)) [
      | inr other ↦
          let ne : c.bucket ≢ k = λ e. cc (other, (same_bucket_iff c.bucket k).1 e) in
          let rest =
            within_window cs b (check rules c.now c.bucket buckets).1
              (check_others c.now c.bucket k buckets ne ∙ held) room later in
          rw other rest
      | inl own ↦
          let eq = (same_bucket_iff c.bucket k).0 own in
          elim (check_within c.now c.bucket b buckets eq held (first own)) [
            | inl (full, refused, same) ↦
                let rest = within_window cs b buckets held room later in
                rw (own, refused, same) (omega (arith, rest, full))
            | inr (free, allowed, next) ↦
                let b' : RateLimitBucket = record b { count = b.count + 1 } in
                let rest =
                  within_window cs b' (set k b' buckets) (get-set k b' buckets)
                    (omega (arith, free)) later in
                rw (own, allowed, next) (omega (arith, rest, free))
          ]
    ]

    -- A call that opens a window: there is no bucket yet, or its window is over.
    abbrev pub Opens : ℕ → Buckets → Type 0
    Opens now buckets =
        (get k buckets ≡ none)
        ⊎ ((b : RateLimitBucket) × (get k buckets ≡ some b) × (b.reset_at ≤ now))

    check-Opens :
        (now : ℕ) (buckets : Buckets)
        → Opens now buckets
        → check rules now k buckets ≡ (allow, set k (fresh rule now) buckets)
    unfolding check check_rule
    check-Opens now buckets (inl e) = rw (ruled, check) (rw (e, check_rule) refl)
    check-Opens now buckets (inr (b, e, over)) =
        let late : leb b.reset_at now ≡ true = ground arith in
        rw (ruled, check) (rw (e, check_rule) (rw late refl))

    -- Of a call that opens the window of a bucket and the calls that follow before the window is
    -- over, with calls for any other buckets among them, exactly the first ones up to the rule's
    -- limit are allowed in number.
    pub allowed_in_window :
        (now : ℕ) (cs : List RateLimitCall) (buckets : Buckets)
        → 1 ≤ rule.limit
        → Opens now buckets
        → Before (now + rule.window_seconds * second) cs
        → allowed_for k (record { now = now; bucket = k } ∷ cs) buckets
          ≡ min (suc (count (is_for k) cs)) rule.limit
    unfolding allowed_for
    allowed_in_window now cs buckets positive opens early =
        let opened = check-Opens now buckets opens in
        let own : same_bucket k k ≡ true = (same_bucket_iff k k).1 refl in
        let rest =
          within_window cs (fresh rule now) (set k (fresh rule now) buckets)
            (get-set k (fresh rule now) buckets) positive early in
        rw (own, opened) (omega (arith, rest, positive))
