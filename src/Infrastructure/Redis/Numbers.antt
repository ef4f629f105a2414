-- ===== src/Infrastructure/Redis/Numbers.antt =====
-- Python's `str` of a natural number and `int` of bytes.
use Prim.Native.Nat.{◌/◌, ◌%◌}
use muxivo_console.Shared.{
  ℕ, zero, suc, ◌+◌, ◌-◌, ◌*◌, ◌<◌, ◌≤◌, ℤ, pos, negsuc, Bool, true, false, ◌&&◌, ◌||◌, ◌≡◌, refl,
  ◌∙◌, Option, none, some, List, [], ◌∷◌, ◌++◌, All, is_empty, leb, ltb, ◌==◌, if◌then◌else◌,
  Bool-cases, arith, inl, inr, ap, sym,
}
use mathlib.Core.List.{append_assoc, append-nil}

abbrev pub Bytes : Type 0
Bytes = List ℕ

abbrev pub is_digit : ℕ → Bool
is_digit c = leb 48 c && leb c 57

-- The digits of `str(n)`, on fuel: `n + 1` is enough.
unfoldable pub digits : ℕ → ℕ → Bytes
digits zero n = []
digits (suc f) n =
    let rest = digits f (n / 10) ++ (48 + n % 10) ∷ [] in if ltb n 10 then (48 + n) ∷ [] else rest

-- `str(n)`, in ASCII.
unfoldable pub decimal : ℕ → Bytes
decimal n = digits (suc n) n

-- `bytes.isspace` of one byte.
abbrev pub is_ascii_space : ℕ → Bool
is_ascii_space c = leb 9 c && leb c 13 || c == 32

unfoldable pub strip_left : (ℕ → Bool) → Bytes → Bytes
strip_left p [] = []
strip_left p (c ∷ cs) = if p c then strip_left p cs else c ∷ cs

-- `rstrip`, over the bytes that it takes away.
unfoldable pub strip_right : (ℕ → Bool) → Bytes → Bytes
strip_right p [] = []
strip_right p (c ∷ cs) =
    let rest = strip_right p cs in if is_empty rest && p c then [] else c ∷ rest

-- The digits of a number, with single underscores between digits. The first argument says whether
-- the byte before is a digit.
unfoldable pub read_digits : Bool → ℕ → Bytes → Option ℕ
read_digits prev acc [] = if prev then some acc else none
read_digits prev acc (c ∷ cs) = elim (is_digit c) [
  | true ↦ read_digits true (acc * 10 + (c - 48)) cs
  | false ↦ elim (c == 95 && prev) [ true ↦ read_digits false acc cs | false ↦ none ]
]

abbrev pub negate : ℕ → ℤ
negate zero = pos 0
negate (suc n) = negsuc n

abbrev pub positive : Option ℕ → Option ℤ
positive none = none
positive (some n) = some (pos n)

abbrev pub negative : Option ℕ → Option ℤ
negative none = none
negative (some n) = some (negate n)

unfoldable pub read_signed : Bytes → Option ℤ
read_signed [] = none
read_signed (c ∷ cs) =
    if c == 45
    then negative (read_digits false 0 cs)
    else if c == 43
    then positive (read_digits false 0 cs)
    else positive (read_digits false 0 (c ∷ cs))

-- `int(s)` of bytes, `none` where it raises `ValueError`.
unfoldable pub int_of_bytes : Bytes → Option ℤ
int_of_bytes s = read_signed (strip_right is_ascii_space (strip_left is_ascii_space s))

abbrev pub IsDigit : ℕ → Type 0
IsDigit c = (48 ≤ c) × (c ≤ 57)

All-append {ℓ κ} :
    {A : Type ℓ} (P : A → Type κ) (xs ys : List A) → All P xs → All P ys → All P (xs ++ ys)
All-append P [] ys h k = k
All-append P (x ∷ xs) ys h k = (h.0, All-append P xs ys h.1 k)

digits-All : (f n : ℕ) → All IsDigit (digits f n)
unfolding digits
digits-All zero n = tt
digits-All (suc f) n = elim (Bool-cases (ltb n 10)) [
  | inl e ↦ rw e ((omega arith, ground arith), tt)
  | inr e ↦ rw e (
      All-append IsDigit (digits f (n / 10)) ((48 + n % 10) ∷ []) (digits-All f (n / 10))
        ((omega arith, omega arith), tt))
]

pub decimal-All : (n : ℕ) → All IsDigit (decimal n)
unfolding decimal
decimal-All n = digits-All (suc n) n

read_digits-digits :
    (f n : ℕ) (prev : Bool) (rest : Bytes)
    → n < f
    → read_digits prev 0 (digits f n ++ rest) ≡ read_digits true n rest
unfolding digits read_digits
read_digits-digits zero n prev rest h = absurd (omega arith)
read_digits-digits (suc f) n prev rest h = elim (Bool-cases (ltb n 10)) [
  | inl e ↦ ground arith
  | inr e ↦
      rw
        (
          e,
          append_assoc (digits f (n / 10)) ((48 + n % 10) ∷ []) rest,
          read_digits-digits f (n / 10) prev ((48 + n % 10) ∷ rest) (ground arith),
        )
        (ground arith)
]

-- Digits survive both strips, over any bytes that are none.
strip_left-digits :
    (p : ℕ → Bool)
    → ((c : ℕ) → IsDigit c → p c ≡ false)
    → (xs : Bytes) → All IsDigit xs
    → strip_left p xs ≡ xs
unfolding strip_left
strip_left-digits p none_of [] h = refl
strip_left-digits p none_of (c ∷ cs) h = rw (none_of c h.0) refl

pub strip_right-digits :
    (p : ℕ → Bool)
    → ((c : ℕ) → IsDigit c → p c ≡ false)
    → (xs ys : Bytes) → All IsDigit xs
    → strip_right p ys ≡ []
    → strip_right p (xs ++ ys) ≡ xs
unfolding strip_right
strip_right-digits p none_of [] ys h e = e
strip_right-digits p none_of (c ∷ cs) ys h e =
    ground (arith, strip_right-digits p none_of cs ys h.1 e, none_of c h.0)

digit-not-space : (c : ℕ) → IsDigit c → is_ascii_space c ≡ false
digit-not-space c h = ground arith

read_signed-digits :
    (xs : Bytes) → All IsDigit xs → read_signed xs ≡ positive (read_digits false 0 xs)
unfolding read_signed
read_signed-digits [] h = unfold read_digits in refl
read_signed-digits (c ∷ cs) h = ground arith

pub read_digits-decimal : (n : ℕ) → read_digits false 0 (decimal n) ≡ some n
unfolding decimal
read_digits-decimal n =
    ap (read_digits false 0) (sym (append-nil (digits (suc n) n)))
    ∙ read_digits-digits (suc n) n false [] (omega arith)
    ∙ unfold read_digits in refl

-- `int(str(n))` is `n`.
pub int_of_bytes-decimal : (n : ℕ) → int_of_bytes (decimal n) ≡ some (pos n)
unfolding int_of_bytes
int_of_bytes-decimal n =
    let left = strip_left-digits is_ascii_space digit-not-space (decimal n) (decimal-All n) in
    let right : strip_right is_ascii_space (decimal n) ≡ decimal n =
      ap (strip_right is_ascii_space) (sym (append-nil (decimal n)))
      ∙ strip_right-digits is_ascii_space digit-not-space (decimal n) [] (decimal-All n)
          (unfold strip_right in refl) in
    rw (left, right, read_signed-digits (decimal n) (decimal-All n), read_digits-decimal n) refl
