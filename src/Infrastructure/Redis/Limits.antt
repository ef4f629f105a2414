-- ===== src/Infrastructure/Redis/Limits.antt =====
-- When the limiter over Redis allows a call, and when it raises.
use muxivo_console.Shared.{ℕ, ℤ, false, ◌≡◌, ◌↔◌, Option, some, Text, ok, err}
use muxivo_console.Infrastructure.RateLimits.{RateLimitRule, allow}
use muxivo_console.Infrastructure.Redis.Numbers.{Bytes}
use muxivo_console.Infrastructure.Redis.Reading.{
  Read, ReadError, done, failed, recursion_error, Reply, Replies,
}
use muxivo_console.Infrastructure.Redis.Clients.{
  RedisSettings, CounterError, commands_of, exchange, counter_reply, window_command, exceeds,
  decision_on, redis_key,
}

-- The list of two integers that the script returns.
abbrev pub pair_of : ℤ → ℤ → Reply
pair_of c t =
    Reply.array (Replies.cons (Reply.number c) (Replies.cons (Reply.number t) Replies.nil))

-- The counter's last reply is a pair whose count is within the limit.
abbrev pub Within : ℕ → Read Reply → Type 0
Within limit r =
    (c : ℤ) × (t : ℤ) × (rest : Bytes) × (r ≡ done (pair_of c t) rest) × (exceeds c limit ≡ false)

-- Whether the decision on a reply is to allow, and whether it raises.
Decides : RateLimitRule → Read Reply → Type 0
Decides rule r =
    ((decision_on rule (counter_reply r) ≡ ok allow) ↔ Within rule.limit r)
    × ((decision_on rule (counter_reply r) ≡ err CounterError.read_incomplete)
        ↔ (r ≡ failed ReadError.incomplete))
    × ((decision_on rule (counter_reply r) ≡ err CounterError.recursion_exceeded)
        ↔ (r ≡ recursion_error))

module _ (sha256_hex : Text → Text) (depth : ℕ) (rules : Text → Option RateLimitRule)
    (s : RedisSettings) (key_prefix scope key : Text) (rule : RateLimitRule)
    (found : rules scope ≡ some rule) where
  -- What is read from a connection for the call.
  abbrev pub reply_to : Bytes → Read Reply
  reply_to bs =
      exchange depth Reply.nothing
        (commands_of s
          (window_command (redis_key sha256_hex key_prefix scope key) rule.window_seconds))
        bs
