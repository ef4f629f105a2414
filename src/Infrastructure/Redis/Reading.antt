-- ===== src/Infrastructure/Redis/Reading.antt =====
-- `_read_redis_value`, on what the server sends until it closes the connection.
use muxivo_console.Shared.{
  ℕ, zero, suc, ℤ, pos, negsuc, ◌||◌, Option, none, some, [], ◌∷◌, Text, ◌==◌, if◌then◌else◌,
}
use muxivo_console.Infrastructure.Redis.Numbers.{Bytes, strip_right, int_of_bytes}
use muxivo_console.Infrastructure.Redis.Utf8.{decode_utf8}

mutual
  pub data Reply : Type 0 where
    nothing : Reply
    text : Text → Reply
    number : ℤ → Reply
    array : Replies → Reply

  pub data Replies : Type 0 where
    nil : Replies
    cons : Reply → Replies → Replies

-- `IncompleteReadError`, `ValueError` (of `int` and of `decode`), the server's error and an unknown
-- marker.
pub data ReadError : Type 0 where
  incomplete value_error unsupported : ReadError
  server_error : Text → ReadError

-- What a read returns, with the bytes that are left; or a `RecursionError`, which no client of the
-- reader catches.
pub data Read (A : Type 0) : Type 0 where
  done : A → Bytes → Read A
  failed : ReadError → Read A
  recursion_error : Read A

abbrev pub with_read : {A B : Type 0} → Read A → (A → Bytes → Read B) → Read B
with_read (done a rest) f = f a rest
with_read (failed e) f = failed e
with_read recursion_error f = recursion_error

-- `readline`: up to the first line feed, or all that is left.
unfoldable pub read_line : Bytes → Bytes × Bytes
read_line [] = ([], [])
read_line (c ∷ cs) = if c == 10 then (c ∷ [], cs) else (c ∷ (read_line cs).0, (read_line cs).1)

-- `(await reader.readline()).rstrip(b"\r\n")`
unfoldable pub stripped_line : Bytes → Bytes × Bytes
stripped_line bs = (strip_right (λ c. c == 13 || c == 10) (read_line bs).0, (read_line bs).1)

-- `readexactly`
unfoldable pub read_exactly : ℕ → Bytes → Read Bytes
read_exactly zero bs = done [] bs
read_exactly (suc n) [] = failed ReadError.incomplete
read_exactly (suc n) (b ∷ bs) = with_read (read_exactly n bs) λ p rest. done (b ∷ p) rest

abbrev pub decoded : Option Text → Bytes → Read Text
decoded none rest = failed ReadError.value_error
decoded (some s) rest = done s rest

abbrev pub read_text : Bytes → Read Text
read_text bs = decoded (decode_utf8 (stripped_line bs).0) (stripped_line bs).1

abbrev pub parsed : Option ℤ → Bytes → Read ℤ
parsed none rest = failed ReadError.value_error
parsed (some n) rest = done n rest

unfoldable pub read_int : Bytes → Read ℤ
read_int bs = parsed (int_of_bytes (stripped_line bs).0) (stripped_line bs).1

abbrev pub text_reply : Text → Bytes → Read Reply
text_reply s left = done (Reply.text s) left

unfoldable pub read_bulk : ℕ → Bytes → Read Reply
read_bulk n bs = with_read (read_exactly n bs) λ payload rest.
    with_read (read_exactly 2 rest)
      λ _ rest'. with_read (decoded (decode_utf8 payload) rest') text_reply

-- `[await _read_redis_value(reader) for _ in range(n)]`, over the call that it makes.
unfoldable pub read_each : (Bytes → Read Reply) → ℕ → Bytes → Read Replies
read_each read zero bs = done Replies.nil bs
read_each read (suc n) bs =
    with_read (read bs)
      λ r rest. with_read (read_each read n rest) λ rs left. done (Replies.cons r rs) left

-- A bulk string or an array, whose length may be negative.
abbrev pub read_bulk_of : ℤ → Bytes → Read Reply
read_bulk_of (pos n) rest = read_bulk n rest
read_bulk_of (negsuc n) rest = done Reply.nothing rest

abbrev pub read_array_of : (Bytes → Read Reply) → ℤ → Bytes → Read Reply
read_array_of read (pos n) rest =
    with_read (read_each read n rest) λ rs left. done (Reply.array rs) left
read_array_of read (negsuc n) rest = done Reply.nothing rest

abbrev pub number_reply : ℤ → Bytes → Read Reply
number_reply n left = done (Reply.number n) left

abbrev pub error_reply : Text → Bytes → Read Reply
error_reply s left = failed (ReadError.server_error s)

-- What follows a marker. The first argument reads an element of an array.
unfoldable pub read_marked : (Bytes → Read Reply) → ℕ → Bytes → Read Reply
read_marked read marker bs =
    if marker == 43
    then with_read (read_text bs) text_reply
    else if marker == 45
    then with_read (read_text bs) error_reply
    else if marker == 58
    then with_read (read_int bs) number_reply
    else if marker == 36
    then with_read (read_int bs) read_bulk_of
    else if marker == 42
    then with_read (read_int bs) (read_array_of read)
    else failed ReadError.unsupported

-- `_read_redis_value`, whose calls nest as the arrays do. The first argument is the number of nested
-- calls for which the interpreter's stack has room.
unfoldable pub read_redis_value : ℕ → Bytes → Read Reply
read_redis_value zero bs = recursion_error
read_redis_value (suc depth) [] = failed ReadError.incomplete
read_redis_value (suc depth) (marker ∷ bs) = read_marked (read_redis_value depth) marker bs
