-- ===== src/Infrastructure/Redis/RoundTrip.antt =====
-- What `_encode_redis_command` writes, `_read_redis_value` reads back.
use muxivo_console.Shared.{
  ℕ, suc, pos, Bool, false, ◌≡◌, refl, some, List, [], ◌∷◌, ◌++◌, Text, length, All, ◌==◌, ◌||◌,
  Option-cases, arith, inl, inr,
}
use mathlib.Core.List.{append_assoc}
use muxivo_console.Infrastructure.Redis.Numbers.{
  Bytes, IsDigit, decimal, decimal-All, strip_right, strip_right-digits, int_of_bytes-decimal,
}
use muxivo_console.Infrastructure.Redis.Utf8.{encode_utf8, decode_utf8, decode-encode}
use muxivo_console.Infrastructure.Redis.Encoding.{
  line_end, header, encode_part, encode_parts, encode_redis_command,
}
use muxivo_console.Infrastructure.Redis.Reading.{
  done, Reply, Replies, read_line, stripped_line, read_int, read_exactly, read_bulk, read_each,
  read_marked, read_redis_value,
}

read_line-digits :
    (ds rest : Bytes)
    → All IsDigit ds
    → read_line (ds ++ 13 ∷ 10 ∷ rest) ≡ (ds ++ 13 ∷ 10 ∷ [], rest)
unfolding read_line
read_line-digits [] rest h = refl
read_line-digits (d ∷ ds) rest h = ground (arith, read_line-digits ds rest h.1)

abbrev is_line_byte : ℕ → Bool
is_line_byte c = c == 13 || c == 10

digit-not-line : (c : ℕ) → IsDigit c → is_line_byte c ≡ false
digit-not-line c h = ground arith

stripped_line-digits :
    (ds rest : Bytes) → All IsDigit ds → stripped_line (ds ++ 13 ∷ 10 ∷ rest) ≡ (ds, rest)
unfolding stripped_line
stripped_line-digits ds rest h =
    rw
      (
        read_line-digits ds rest h,
        strip_right-digits is_line_byte digit-not-line ds (13 ∷ 10 ∷ []) h
            (unfold strip_right in refl),
      )
      refl

read_int-decimal :
    (n : ℕ) (rest : Bytes) → read_int ((decimal n ++ line_end) ++ rest) ≡ done (pos n) rest
unfolding read_int
read_int-decimal n rest =
    rw
      (
        append_assoc (decimal n) line_end rest,
        stripped_line-digits (decimal n) rest (decimal-All n),
        int_of_bytes-decimal n,
      )
      refl

read_exactly-length : (bs rest : Bytes) → read_exactly (length bs) (bs ++ rest) ≡ done bs rest
unfolding read_exactly
read_exactly-length [] rest = refl
read_exactly-length (b ∷ bs) rest = rw (read_exactly-length bs rest) refl

read_bulk-text :
    (s : Text) (bs rest : Bytes)
    → decode_utf8 bs ≡ some s
    → read_bulk (length bs) (bs ++ (line_end ++ rest)) ≡ done (Reply.text s) rest
unfolding read_bulk
read_bulk-text s bs rest h =
    rw (read_exactly-length bs (line_end ++ rest)) (unfold read_exactly in rw h refl)

read_redis_value-bulk :
    (f : ℕ) (s : Text) (bs rest : Bytes)
    → decode_utf8 bs ≡ some s
    → read_redis_value (suc f) ((header 36 (length bs) ++ (bs ++ line_end)) ++ rest)
      ≡ done (Reply.text s) rest
unfolding read_redis_value read_marked
read_redis_value-bulk f s bs rest h =
    rw
      (
        append_assoc (decimal (length bs) ++ line_end) (bs ++ line_end) rest,
        read_int-decimal (length bs) ((bs ++ line_end) ++ rest),
        append_assoc bs line_end rest,
      )
      (read_bulk-text s bs rest h)

read_redis_value-part :
    (f : ℕ) (s : Text) (part rest : Bytes)
    → encode_part s ≡ some part
    → read_redis_value (suc f) (part ++ rest) ≡ done (Reply.text s) rest
unfolding encode_part
read_redis_value-part f s part rest h = elim (Option-cases (encode_utf8 s)) [
  | inl e ↦ absurd (cc (rw e at h))
  | inr (bs, e) ↦
      let encoded : header 36 (length bs) ++ (bs ++ line_end) ≡ part = cc (rw e at h) in
      rw (← encoded) (read_redis_value-bulk f s bs rest (decode-encode s bs e))
]

-- The parts of a command as replies.
abbrev pub texts : List Text → Replies
texts [] = Replies.nil
texts (s ∷ ss) = Replies.cons (Reply.text s) (texts ss)

read_each-parts :
    (f : ℕ) (parts : List Text) (bs rest : Bytes)
    → encode_parts parts ≡ some bs
    → read_each (read_redis_value (suc f)) (length parts) (bs ++ rest) ≡ done (texts parts) rest
unfolding encode_parts read_each
read_each-parts f [] bs rest h = let e : [] ≡ bs = cc in rw (← e) refl
read_each-parts f (s ∷ ss) bs rest h = elim (Option-cases (encode_part s)) [
  | inl e ↦ absurd (cc (rw e at h))
  | inr (a, e) ↦ elim (Option-cases (encode_parts ss)) [
    | inl g ↦ absurd (cc (rw (e, g) at h))
    | inr (b, g) ↦
        let whole : a ++ b ≡ bs = cc (rw (e, g) at h) in
        rw
          (
            ← whole,
            append_assoc a b rest,
            read_redis_value-part f s a (b ++ rest) e,
            read_each-parts f ss b rest g,
          )
          refl
  ]
]

read_redis_value-array :
    (f : ℕ) (parts : List Text) (bs rest : Bytes)
    → encode_parts parts ≡ some bs
    → read_redis_value (suc (suc f)) ((header 42 (length parts) ++ bs) ++ rest)
      ≡ done (Reply.array (texts parts)) rest
unfolding read_redis_value read_marked
read_redis_value-array f parts bs rest h =
    rw
      (
        append_assoc (decimal (length parts) ++ line_end) bs rest,
        read_int-decimal (length parts) (bs ++ rest),
      )
      (rw (read_each-parts f parts bs rest h) refl)

-- A command that has an encoding is read back, from whatever follows it, as the array of its parts:
-- any number of them, each any text without surrogates, line ends and markers included, where the
-- stack has room for two nested calls.
pub read-encode_redis_command :
    (depth : ℕ) (parts : List Text) (bs rest : Bytes)
    → encode_redis_command parts ≡ some bs
    → read_redis_value (suc (suc depth)) (bs ++ rest) ≡ done (Reply.array (texts parts)) rest
unfolding encode_redis_command
read-encode_redis_command depth parts bs rest h = elim (Option-cases (encode_parts parts)) [
  | inl e ↦ absurd (cc (rw e at h))
  | inr (b, e) ↦
      let whole : header 42 (length parts) ++ b ≡ bs = cc (rw e at h) in
      rw (← whole) (read_redis_value-array depth parts b rest e)
]
