-- ===== src/Infrastructure/Redis/Utf8.antt =====
-- UTF-8, which `str.encode` and `bytes.decode` use, in its strict form: no overlong sequence, no
-- surrogate and nothing above U+10FFFF.
use Prim.Native.Nat.{◌/◌, ◌%◌}
use muxivo_console.Shared.{
  ℕ, suc, ◌+◌, ◌-◌, ◌*◌, ◌<◌, ◌≤◌, not, ◌&&◌, ◌≡◌, refl, ◌∙◌, Option, none, some, [], ◌∷◌, ◌++◌,
  Text, leb, ltb, ◌==◌, if◌then◌else◌, arith, ◌⊎◌, inl, inr, ap, Option-cases,
}
use muxivo_console.Infrastructure.Redis.Numbers.{Bytes}

-- One code point, `none` where `encode` raises.
unfoldable pub encode_point : ℕ → Option Bytes
encode_point c =
    if ltb c 0x80
    then some (c ∷ [])
    else if ltb c 0x800
    then some ((0xC0 + c / 64) ∷ (0x80 + c % 64) ∷ [])
    else if leb 0xD800 c && leb c 0xDFFF
    then none
    else if ltb c 0x10000
    then some ((0xE0 + c / 4096) ∷ (0x80 + c / 64 % 64) ∷ (0x80 + c % 64) ∷ [])
    else if ltb c 0x110000
    then some
        ((0xF0 + c / 262144) ∷ (0x80 + c / 4096 % 64) ∷ (0x80 + c / 64 % 64) ∷ (0x80 + c % 64) ∷ [])
    else none

abbrev pub joined : Option Bytes → Option Bytes → Option Bytes
joined none y = none
joined (some x) none = none
joined (some x) (some y) = some (x ++ y)

-- `s.encode("utf-8")`
unfoldable pub encode_utf8 : Text → Option Bytes
encode_utf8 [] = some []
encode_utf8 (c ∷ cs) = joined (encode_point c) (encode_utf8 cs)

-- The bytes that a code point still needs, its value so far, and the bounds of the next byte.
pub record Decoding : Type 0 where
  pub needed : ℕ
  pub value : ℕ
  pub low : ℕ
  pub high : ℕ

abbrev pub between_points : Decoding
between_points = record { needed = 0; value = 0; low = 0x80; high = 0xBF }

abbrev pub awaiting : ℕ → ℕ → ℕ → ℕ → Decoding
awaiting n v lo hi = record { needed = n; value = v; low = lo; high = hi }

unfoldable pub first_byte : ℕ → Option (Decoding × Text)
first_byte b =
    if ltb b 0x80
    then some (between_points, b ∷ [])
    else if leb 0xC2 b && leb b 0xDF
    then some (awaiting 1 (b - 0xC0) 0x80 0xBF, [])
    else if leb 0xE0 b && leb b 0xEF
    then some (
      awaiting 2 (b - 0xE0) (if b == 0xE0 then 0xA0 else 0x80) (if b == 0xED then 0x9F else 0xBF),
      [],
    )
    else if leb 0xF0 b && leb b 0xF4
    then some (
      awaiting 3 (b - 0xF0) (if b == 0xF0 then 0x90 else 0x80) (if b == 0xF4 then 0x8F else 0xBF),
      [],
    )
    else none

unfoldable pub next_byte : Decoding → ℕ → Option (Decoding × Text)
unfolding first_byte
next_byte d b =
    let v = d.value * 64 + (b - 0x80) in
    if d.needed == 0
    then first_byte b
    else if not (leb d.low b && leb b d.high)
    then none
    else if d.needed == 1
    then some (between_points, v ∷ [])
    else some (awaiting (d.needed - 1) v 0x80 0xBF, [])

abbrev pub preceded : Text → Option Text → Option Text
preceded s none = none
preceded s (some t) = some (s ++ t)

unfoldable pub decode_from : Decoding → Bytes → Option Text
decode_from d [] = if d.needed == 0 then some [] else none
decode_from d (b ∷ bs) = elim (next_byte d b) [
  | none ↦ none
  | some (e, s) ↦ preceded s (decode_from e bs)
]

-- `s.decode("utf-8")`, `none` where it raises.
unfoldable pub decode_utf8 : Bytes → Option Text
decode_utf8 bs = decode_from between_points bs

-- The first byte of a longer sequence, and the bytes that follow it.
first_of_two :
    (n : ℕ)
    → 2 ≤ n
    → n < 32
    → next_byte between_points (0xC0 + n) ≡ some (awaiting 1 n 0x80 0xBF, [])
unfolding next_byte first_byte
first_of_two n h k = ground arith

first_of_three :
    (n : ℕ)
    → n < 16
    → next_byte between_points (0xE0 + n)
      ≡ some (awaiting 2 n (if n == 0 then 0xA0 else 0x80) (if n == 0xD then 0x9F else 0xBF), [])
unfolding next_byte first_byte
first_of_three n h = ground arith

first_of_four :
    (n : ℕ)
    → n < 5
    → next_byte between_points (0xF0 + n)
      ≡ some (awaiting 3 n (if n == 0 then 0x90 else 0x80) (if n == 4 then 0x8F else 0xBF), [])
unfolding next_byte first_byte
first_of_four n h = ground arith

middle_byte :
    (k v lo hi n : ℕ)
    → n < 64
    → lo ≤ 0x80 + n
    → 0x80 + n ≤ hi
    → next_byte (awaiting (suc (suc k)) v lo hi) (0x80 + n)
      ≡ some (awaiting (suc k) (v * 64 + n) 0x80 0xBF, [])
unfolding next_byte
middle_byte k v lo hi n h a b = ground arith

last_byte :
    (v lo hi n : ℕ)
    → n < 64
    → lo ≤ 0x80 + n
    → 0x80 + n ≤ hi
    → next_byte (awaiting 1 v lo hi) (0x80 + n) ≡ some (between_points, (v * 64 + n) ∷ [])
unfolding next_byte
last_byte v lo hi n h a b = ground arith

decode_step :
    (d e : Decoding) (b : ℕ) (bs : Bytes) (s : Text)
    → next_byte d b ≡ some (e, s)
    → decode_from d (b ∷ bs) ≡ preceded s (decode_from e bs)
unfolding decode_from
decode_step d e b bs s h = rw (h, decode_from) refl

preceded_nil : (o : Option Text) → preceded [] o ≡ o
preceded_nil none = refl
preceded_nil (some t) = refl

-- A byte that yields no code point only moves the state.
silent_step :
    (d e : Decoding) (b : ℕ) (bs : Bytes)
    → next_byte d b ≡ some (e, [])
    → decode_from d (b ∷ bs) ≡ decode_from e bs
silent_step d e b bs h = decode_step d e b bs [] h ∙ preceded_nil (decode_from e bs)

-- One code point in front of the rest.
Decodes : ℕ → Bytes → Bytes → Type 0
Decodes c bs rest =
    decode_from between_points (bs ++ rest) ≡ preceded (c ∷ []) (decode_from between_points rest)

Decodes-two :
    (c : ℕ) (rest : Bytes)
    → 0x80 ≤ c
    → c < 0x800
    → Decodes c ((0xC0 + c / 64) ∷ (0x80 + c % 64) ∷ []) rest
unfolding Decodes
Decodes-two c rest h k =
    let value : c / 64 * 64 + c % 64 ≡ c = omega arith in
    silent_step between_points (awaiting 1 (c / 64) 0x80 0xBF) (0xC0 + c / 64)
      ((0x80 + c % 64) ∷ rest) (first_of_two (c / 64) (omega arith) (omega arith))
    ∙ decode_step (awaiting 1 (c / 64) 0x80 0xBF) between_points (0x80 + c % 64) rest
        ((c / 64 * 64 + c % 64) ∷ [])
        (last_byte (c / 64) 0x80 0xBF (c % 64) (omega arith) (omega arith) (omega arith))
    ∙ ap (λ (v : ℕ). preceded (v ∷ []) (decode_from between_points rest)) value

Decodes-three :
    (c : ℕ) (rest : Bytes)
    → 0x800 ≤ c
    → c < 0x10000
    → (c < 0xD800) ⊎ (0xDFFF < c)
    → Decodes c ((0xE0 + c / 4096) ∷ (0x80 + c / 64 % 64) ∷ (0x80 + c % 64) ∷ []) rest
unfolding Decodes
Decodes-three c rest h k away =
    let a : ℕ = c / 4096 in
    let b : ℕ = c / 64 % 64 in
    let d : ℕ = c % 64 in
    let lo : ℕ = if a == 0 then 0xA0 else 0x80 in
    let hi : ℕ = if a == 0xD then 0x9F else 0xBF in
    let value : (a * 64 + b) * 64 + d ≡ c = omega arith in
    let low : lo ≤ 0x80 + b = ground arith in
    let high : 0x80 + b ≤ hi = ground arith in
    silent_step between_points (awaiting 2 a lo hi) (0xE0 + a) ((0x80 + b) ∷ (0x80 + d) ∷ rest)
      (first_of_three a (omega arith))
    ∙ silent_step (awaiting 2 a lo hi) (awaiting 1 (a * 64 + b) 0x80 0xBF) (0x80 + b)
        ((0x80 + d) ∷ rest) (middle_byte 0 a lo hi b (omega arith) low high)
    ∙ decode_step (awaiting 1 (a * 64 + b) 0x80 0xBF) between_points (0x80 + d) rest
        (((a * 64 + b) * 64 + d) ∷ [])
        (last_byte (a * 64 + b) 0x80 0xBF d (omega arith) (omega arith) (omega arith))
    ∙ ap (λ (v : ℕ). preceded (v ∷ []) (decode_from between_points rest)) value

Decodes-four :
    (c : ℕ) (rest : Bytes)
    → 0x10000 ≤ c
    → c < 0x110000
    → Decodes c
        ((0xF0 + c / 262144) ∷ (0x80 + c / 4096 % 64) ∷ (0x80 + c / 64 % 64) ∷ (0x80 + c % 64) ∷ [])
        rest
unfolding Decodes
Decodes-four c rest h k =
    let a : ℕ = c / 262144 in
    let b : ℕ = c / 4096 % 64 in
    let d : ℕ = c / 64 % 64 in
    let f : ℕ = c % 64 in
    let lo : ℕ = if a == 0 then 0x90 else 0x80 in
    let hi : ℕ = if a == 4 then 0x8F else 0xBF in
    let value : ((a * 64 + b) * 64 + d) * 64 + f ≡ c = omega arith in
    let low : lo ≤ 0x80 + b = ground arith in
    let high : 0x80 + b ≤ hi = ground arith in
    silent_step between_points (awaiting 3 a lo hi) (0xF0 + a)
      ((0x80 + b) ∷ (0x80 + d) ∷ (0x80 + f) ∷ rest) (first_of_four a (omega arith))
    ∙ silent_step (awaiting 3 a lo hi) (awaiting 2 (a * 64 + b) 0x80 0xBF) (0x80 + b)
        ((0x80 + d) ∷ (0x80 + f) ∷ rest) (middle_byte 1 a lo hi b (omega arith) low high)
    ∙ silent_step (awaiting 2 (a * 64 + b) 0x80 0xBF) (awaiting 1 ((a * 64 + b) * 64 + d) 0x80 0xBF)
        (0x80 + d) ((0x80 + f) ∷ rest)
        (middle_byte 0 (a * 64 + b) 0x80 0xBF d (omega arith) (omega arith) (omega arith))
    ∙ decode_step (awaiting 1 ((a * 64 + b) * 64 + d) 0x80 0xBF) between_points (0x80 + f) rest
        ((((a * 64 + b) * 64 + d) * 64 + f) ∷ [])
        (last_byte ((a * 64 + b) * 64 + d) 0x80 0xBF f (omega arith) (omega arith) (omega arith))
    ∙ ap (λ (v : ℕ). preceded (v ∷ []) (decode_from between_points rest)) value

Decodes-one : (c : ℕ) (rest : Bytes) → c < 0x80 → Decodes c (c ∷ []) rest
unfolding Decodes
Decodes-one c rest h =
    let moved : next_byte between_points c ≡ some (between_points, c ∷ []) =
      unfold next_byte first_byte in ground arith in
    decode_step between_points between_points c rest (c ∷ []) moved

decode-encode_point : (c : ℕ) (bs rest : Bytes) → encode_point c ≡ some bs → Decodes c bs rest
unfolding encode_point
decode-encode_point c bs rest h =
    ground
      (arith, Decodes-one c rest, Decodes-two c rest, Decodes-three c rest, Decodes-four c rest)

decoded_join :
    (c : ℕ) (cs : Text) (a b bs : Bytes)
    → joined (some a) (some b) ≡ some bs
    → Decodes c a b
    → decode_utf8 b ≡ some cs
    → decode_utf8 bs ≡ some (c ∷ cs)
unfolding decode_utf8 Decodes
decoded_join c cs a b bs h front back = let e : a ++ b ≡ bs = cc in rw (← e, front, back) refl

-- `bytes.decode` undoes `str.encode`.
pub decode-encode : (s : Text) (bs : Bytes) → encode_utf8 s ≡ some bs → decode_utf8 bs ≡ some s
unfolding encode_utf8
decode-encode [] bs h = let e : [] ≡ bs = cc in rw (← e) (unfold decode_utf8 decode_from in refl)
decode-encode (c ∷ cs) bs h = elim (Option-cases (encode_point c)) [
  | inl e ↦ absurd (cc (rw e at h))
  | inr (a, e) ↦ elim (Option-cases (encode_utf8 cs)) [
    | inl f ↦ absurd (cc (rw (e, f) at h))
    | inr (b, f) ↦
        decoded_join c cs a b bs (rw (e, f) at h) (decode-encode_point c a b e)
          (decode-encode cs b f)
  ]
]
