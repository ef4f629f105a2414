-- ===== src/Tests/Redis.antt =====
-- Runs of the reader of replies and of the limiter over Redis.
use muxivo_console.Shared.{
  ◌≡◌, refl, Option, none, some, Result, List, [], ◌∷◌, ◌++◌, Text, codes, ok, err, length,
}
use muxivo_console.Infrastructure.RateLimits.{RateLimitRule, RateLimitDecision, allow}
use muxivo_console.Infrastructure.Redis.Numbers.{Bytes}
use muxivo_console.Infrastructure.Redis.Utf8.{encode_utf8, encode_point}
use muxivo_console.Infrastructure.Redis.Encoding.{
  encode_redis_command, encode_part, encode_parts, line_end,
}
use muxivo_console.Infrastructure.Redis.Reading.{
  done, Read, Reply, read_redis_value, read_marked, read_int, read_each, stripped_line, read_line,
}
use muxivo_console.Infrastructure.Redis.Numbers.{
  decimal, digits, strip_left, strip_right, read_digits, read_signed, int_of_bytes,
}
use muxivo_console.Infrastructure.Redis.Fuel.{Leaves, read_redis_value-Leaves}
use muxivo_console.Infrastructure.Redis.RoundTrip.{texts, read-encode_redis_command}
use muxivo_console.Infrastructure.Redis.Clients.{
  RedisSettings, CounterError, redis_check, increment_windowed, exchange,
}
use muxivo_console.Infrastructure.Redis.Limits.{reply_to}

-- `GET` of a key with a letter outside ASCII.
abbrev parts : List Text
parts = codes "GET" ∷ (107 ∷ 0x43A ∷ []) ∷ []

abbrev written : Bytes
written =
    codes "*2"
    ++ line_end
    ++ codes "$3"
    ++ line_end
    ++ codes "GET"
    ++ line_end
    ++ codes "$3"
    ++ line_end
    ++ (107 ∷ 0xD0 ∷ 0xBA ∷ [])
    ++ line_end

encodes : encode_redis_command parts ≡ some written
unfolding encode_redis_command encode_parts encode_part encode_utf8 encode_point decimal digits
encodes = refl

read-encode_redis_command_example :
    read_redis_value 2 (written ++ 58 ∷ []) ≡ done (Reply.array (texts parts)) (58 ∷ [])
read-encode_redis_command_example = read-encode_redis_command 0 parts written (58 ∷ []) encodes

-- Two nested arrays, the inner of which announces more elements than are sent.
abbrev cut_short : Bytes
cut_short = codes "*1" ++ line_end ++ codes "*9" ++ line_end ++ codes ":5" ++ line_end

read_redis_value-Leaves_example :
    Leaves 3 (length cut_short) (length cut_short) (read_redis_value 3 cut_short)
read_redis_value-Leaves_example = read_redis_value-Leaves 3 cut_short

abbrev plain : RedisSettings
plain = record { username = none; password = none; db = 0 }

abbrev rule : RateLimitRule
rule = record { limit = 3; window_seconds = 60 }

abbrev rules : Text → Option RateLimitRule
rules scope = some rule

abbrev counted_three : Bytes
counted_three = codes "*2" ++ line_end ++ codes ":3" ++ line_end ++ codes ":40" ++ line_end

-- The check of one call, with what the server sends.
abbrev check_with : Option Bytes → Result CounterError RateLimitDecision
check_with incoming =
    redis_check (λ t. t) 900 rules plain incoming (codes "rate:") (codes "login") (codes "ip")

abbrev reply_with : Bytes → Read Reply
reply_with =
    reply_to (λ t. t) 900 rules plain (codes "rate:") (codes "login") (codes "ip") rule refl

-- All that a check calls.
CheckOpen : Type 0
unfolding redis_check increment_windowed exchange encode_redis_command encode_parts encode_part
    encode_utf8 encode_point decimal digits read_redis_value read_marked read_each read_int
    int_of_bytes stripped_line read_line strip_left strip_right read_signed read_digits
CheckOpen = Unit

check_runs : check_with (some counted_three) ≡ ok allow
unfolding CheckOpen
check_runs = refl

-- A connection that ends within the reply.
check_incomplete : check_with (some cut_short) ≡ err CounterError.read_incomplete
unfolding CheckOpen
check_incomplete = refl

-- One array within another is too deep for a stack of one call.
check_too_deep :
    redis_check (λ t. t) 1 rules plain (some cut_short) (codes "rate:") (codes "login") (codes "ip")
    ≡ err CounterError.recursion_exceeded
unfolding CheckOpen
check_too_deep = refl
