-- ===== src/Infrastructure/Redis/Fuel.antt =====
-- The reader of replies ends. The depth of its calls, for which the stack has room, is as fuel to it:
-- nothing is read beyond, and a `RecursionError` is raised.
use muxivo_console.Shared.{
  ℕ, zero, suc, ◌+◌, ◌≤◌, ℤ, pos, negsuc, Option, none, some, [], ◌∷◌, Text, length, arith,
}
use muxivo_console.Infrastructure.Redis.Numbers.{Bytes}
use muxivo_console.Infrastructure.Redis.Utf8.{decode_utf8}
use muxivo_console.Infrastructure.Redis.Reading.{
  Read, done, failed, recursion_error, Reply, with_read, read_line, stripped_line, decoded, parsed,
  read_text, read_int, read_exactly, read_bulk, read_each, read_bulk_of, read_array_of, text_reply,
  error_reply, number_reply, read_marked, read_redis_value,
}

-- The read leaves at most `k` bytes, or raises; the stack is exceeded only if `d` is not more than
-- `n`.
abbrev pub Leaves : {A : Type 0} → ℕ → ℕ → ℕ → Read A → Type 0
Leaves d n k (done a rest) = length rest ≤ k
Leaves d n k (failed e) = Unit
Leaves d n k recursion_error = d ≤ n

module _ (d size : ℕ) where
  with_read-Leaves :
      {A B : Type 0} (j k : ℕ) (r : Read A) (f : A → Bytes → Read B)
      → Leaves d size j r
      → ((a : A) (rest : Bytes) → length rest ≤ j → Leaves d size k (f a rest))
      → Leaves d size k (with_read r f)
  with_read-Leaves j k (done a rest) f h g = g a rest h
  with_read-Leaves j k (failed e) f h g = tt
  with_read-Leaves j k recursion_error f h g = h

  read_line-le : (bs : Bytes) → length (read_line bs).1 ≤ length bs
  unfolding read_line
  read_line-le [] = omega arith
  read_line-le (c ∷ cs) = ground (arith, read_line-le cs)

  decoded-Leaves :
      (o : Option Text) (rest : Bytes) (k : ℕ) → length rest ≤ k → Leaves d size k (decoded o rest)
  decoded-Leaves none rest k h = tt
  decoded-Leaves (some s) rest k h = h

  parsed-Leaves :
      (o : Option ℤ) (rest : Bytes) (k : ℕ) → length rest ≤ k → Leaves d size k (parsed o rest)
  parsed-Leaves none rest k h = tt
  parsed-Leaves (some n) rest k h = h

  read_text-Leaves : (bs : Bytes) → Leaves d size (length bs) (read_text bs)
  unfolding stripped_line
  read_text-Leaves bs = decoded-Leaves _ _ (length bs) (read_line-le bs)

  read_int-Leaves : (bs : Bytes) → Leaves d size (length bs) (read_int bs)
  unfolding read_int stripped_line
  read_int-Leaves bs = parsed-Leaves _ _ (length bs) (read_line-le bs)

  read_exactly-Leaves : (n : ℕ) (bs : Bytes) → Leaves d size (length bs) (read_exactly n bs)
  unfolding read_exactly
  read_exactly-Leaves zero bs = omega arith
  read_exactly-Leaves (suc n) [] = tt
  read_exactly-Leaves (suc n) (b ∷ bs) =
      with_read-Leaves (length bs) (suc (length bs)) (read_exactly n bs) _
        (read_exactly-Leaves n bs) λ p rest h. omega arith

  -- A bound may grow.
  Leaves-le : {A : Type 0} (j k : ℕ) (r : Read A) → j ≤ k → Leaves d size j r → Leaves d size k r
  Leaves-le j k (done a rest) h l = omega arith
  Leaves-le j k (failed e) h l = tt
  Leaves-le j k recursion_error h l = l

  read_bulk-Leaves : (n : ℕ) (bs : Bytes) → Leaves d size (length bs) (read_bulk n bs)
  unfolding read_bulk
  read_bulk-Leaves n bs =
      with_read-Leaves (length bs) (length bs) (read_exactly n bs) _ (read_exactly-Leaves n bs)
        λ payload rest h.
          with_read-Leaves (length rest) (length bs) (read_exactly 2 rest) _
            (read_exactly-Leaves 2 rest)
            λ x rest' h'.
              with_read-Leaves (length bs) (length bs) (decoded (decode_utf8 payload) rest') _
                (decoded-Leaves _ rest' (length bs) (omega arith)) λ s left l. l

  -- A reader at depth `f`: the stack is exceeded only if as many calls and bytes have been used.
  abbrev Ends : ℕ → (Bytes → Read Reply) → Type 0
  Ends f read = (bs : Bytes) → length bs + d ≤ f + size → Leaves d size (length bs) (read bs)

  read_each-Leaves :
      (f : ℕ) (read : Bytes → Read Reply)
      → Ends f read
      → (n : ℕ) (bs : Bytes) → length bs + d ≤ f + size
      → Leaves d size (length bs) (read_each read n bs)
  unfolding read_each
  read_each-Leaves f read ends zero bs h = omega arith
  read_each-Leaves f read ends (suc n) bs h =
      with_read-Leaves (length bs) (length bs) (read bs) _ (ends bs h) λ r rest l.
        with_read-Leaves (length bs) (length bs) (read_each read n rest) _
          (Leaves-le (length rest) (length bs) (read_each read n rest) l
            (read_each-Leaves f read ends n rest (omega arith)))
          λ rs left l'. l'

  read_bulk_of-Leaves : (n : ℤ) (bs : Bytes) → Leaves d size (length bs) (read_bulk_of n bs)
  read_bulk_of-Leaves (pos n) bs = read_bulk-Leaves n bs
  read_bulk_of-Leaves (negsuc n) bs = omega arith

  read_array_of-Leaves :
      (f : ℕ) (read : Bytes → Read Reply)
      → Ends f read
      → (n : ℤ) (bs : Bytes) → length bs + d ≤ f + size
      → Leaves d size (length bs) (read_array_of read n bs)
  read_array_of-Leaves f read ends (pos n) bs h =
      with_read-Leaves (length bs) (length bs) (read_each read n bs) _
        (read_each-Leaves f read ends n bs h) λ rs left l. l
  read_array_of-Leaves f read ends (negsuc n) bs h = omega arith

  read_marked-Leaves :
      (f : ℕ) (read : Bytes → Read Reply)
      → Ends f read
      → (marker : ℕ) (bs : Bytes) → length bs + d ≤ f + size
      → Leaves d size (length bs) (read_marked read marker bs)
  unfolding read_marked
  read_marked-Leaves f read ends marker bs h =
      let k : ℕ = length bs in
      ground (
        arith,
        with_read-Leaves k k (read_text bs) text_reply (read_text-Leaves bs) (λ s left l. l),
        with_read-Leaves k k (read_text bs) error_reply (read_text-Leaves bs) (λ s left l. tt),
        with_read-Leaves k k (read_int bs) number_reply (read_int-Leaves bs) (λ n left l. l),
        with_read-Leaves k k (read_int bs) read_bulk_of (read_int-Leaves bs) (λ n left l.
            Leaves-le (length left) k (read_bulk_of n left) l (read_bulk_of-Leaves n left)),
        with_read-Leaves k k (read_int bs) (read_array_of read) (read_int-Leaves bs) (λ n left l.
            Leaves-le (length left) k (read_array_of read n left) l
              (read_array_of-Leaves f read ends n left (omega arith))),
      )

  read_redis_value-Ends : (f : ℕ) → Ends f (read_redis_value f)
  unfolding read_redis_value
  read_redis_value-Ends zero bs h = omega arith
  read_redis_value-Ends (suc f) [] h = tt
  read_redis_value-Ends (suc f) (b ∷ bs) h =
      Leaves-le (length bs) (suc (length bs)) (read_marked (read_redis_value f) b bs) (omega arith)
        (read_marked-Leaves f (read_redis_value f) (read_redis_value-Ends f) b bs (omega arith))

-- Whatever the server sends, with arrays of any announced length, the reader ends: it returns a
-- reply and leaves no more bytes than it was given, or it raises. It exceeds the stack only if the
-- stack has room for no more nested calls than there are bytes.
pub read_redis_value-Leaves :
    (depth : ℕ) (bs : Bytes) → Leaves depth (length bs) (length bs) (read_redis_value depth bs)
read_redis_value-Leaves depth bs = read_redis_value-Ends depth (length bs) depth bs (omega arith)
