-- ===== src/Infrastructure/Redis/Encoding.antt =====
-- `_encode_redis_command`: a command as an array of bulk strings.
use muxivo_console.Shared.{ℕ, Option, none, some, List, [], ◌∷◌, ◌++◌, length, Text}
use muxivo_console.Infrastructure.Redis.Numbers.{Bytes, decimal}
use muxivo_console.Infrastructure.Redis.Utf8.{encode_utf8, joined}

abbrev pub line_end : Bytes
line_end = 13 ∷ 10 ∷ []

-- A marker, a number and the end of the line.
abbrev pub header : ℕ → ℕ → Bytes
header marker n = marker ∷ (decimal n ++ line_end)

abbrev pub bulk_of : Option Bytes → Option Bytes
bulk_of none = none
bulk_of (some value) = some (header 36 (length value) ++ (value ++ line_end))

unfoldable pub encode_part : Text → Option Bytes
encode_part s = bulk_of (encode_utf8 s)

unfoldable pub encode_parts : List Text → Option Bytes
encode_parts [] = some []
encode_parts (s ∷ ss) = joined (encode_part s) (encode_parts ss)

-- `none` where a part has no encoding, which raises a `ValueError`.
unfoldable pub encode_redis_command : List Text → Option Bytes
encode_redis_command parts = joined (some (header 42 (length parts))) (encode_parts parts)
