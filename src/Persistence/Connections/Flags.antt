-- ===== src/Persistence/Connections/Flags.antt =====
-- The dictionary of a connection's capability flags, whose order a JSONB column does not keep.
use mathlib.Core.Logic.{∥∥₁_elim}
use mathlib.Core.Bool.{Bool-set}
use mathlib.Core.List.Perm
use mathlib.Core.List.{Perm, Permᴰ}
use muxivo_console.Shared.{
  Bool, true, false, not, ◌≡◌, refl, arith, List, [], ◌∷◌, map, any, Text, is_blank, length, ltb,
  ◌||◌, ◌&&◌, ap, text_eq, ◌∙◌,
}
use muxivo_console.Domain.Connections.{are_unique}
use muxivo_console.Persistence.Database.{object}
use muxivo_console.Persistence.Connections.{capability_keys}

-- The dictionary that is stored for a list of capability keys.
abbrev pub flags : List Text → List (Text × Bool)
flags = map (λ k. (k, true))

-- The keys of a dictionary, in its order.
abbrev pub keys : List (Text × Bool) → List Text
keys = map (λ (e : Text × Bool). e.0)

abbrev pub is_bad_key : Text → Bool
is_bad_key k = is_blank k || ltb 128 (length k)

or_swap : (a b c : Bool) → (a || (b || c)) ≡ (b || (a || c))
or_swap true true c = refl
or_swap true false c = refl
or_swap false true c = refl
or_swap false false c = refl

module _ {ℓ} {A : Type ℓ} (p : A → Bool) where
  any-Permᴰ : {xs ys : List A} → Permᴰ xs ys → any p xs ≡ any p ys
  any-Permᴰ Permᴰ.nil = refl
  any-Permᴰ (Permᴰ.cons {b = b} {l₁ = xs} e d) =
      ap (λ x. p x || any p xs) e ∙ ap (λ t. p b || t) (any-Permᴰ d)
  any-Permᴰ (Permᴰ.swap {a} {b} {a'} {b'} {l} e f) =
      or_swap (p a) (p b) (any p l)
      ∙ ap (λ x. p x || (p a || any p l)) f
      ∙ ap (λ x. p a' || (p x || any p l)) e
  any-Permᴰ (Permᴰ.trans d e) = any-Permᴰ d ∙ any-Permᴰ e

  any-Perm : {xs ys : List A} → Perm xs ys → any p xs ≡ any p ys
  any-Perm {xs} {ys} d = ∥∥₁_elim d (Bool-set (any p xs) (any p ys)) any-Permᴰ

text_eq_comm : (s t : Text) → text_eq s t ≡ text_eq t s
text_eq_comm [] [] = refl
text_eq_comm [] (d ∷ t) = refl
text_eq_comm (c ∷ s) [] = refl
text_eq_comm (c ∷ s) (d ∷ t) = ground (arith, text_eq_comm s t)

are_unique_swap : (j k : Text) (ks : List Text) → are_unique (j ∷ k ∷ ks) ≡ are_unique (k ∷ j ∷ ks)
are_unique_swap j k ks = ground (arith, text_eq_comm j k)

are_unique-Permᴰ : {xs ys : List Text} → Permᴰ xs ys → are_unique xs ≡ are_unique ys
are_unique-Permᴰ Permᴰ.nil = refl
are_unique-Permᴰ (Permᴰ.cons {a = k} {l₁ = xs} {l₂ = ys} e d) =
    ap (λ t. not t && are_unique xs) (any-Permᴰ (text_eq k) d)
    ∙ ap (λ t. not (any (text_eq k) ys) && t) (are_unique-Permᴰ d)
    ∙ ap (λ x. are_unique (x ∷ ys)) e
are_unique-Permᴰ (Permᴰ.swap {a = j} {b = k} {a' = m} {l = ks} e f) =
    are_unique_swap j k ks
    ∙ ap (λ x. are_unique (x ∷ j ∷ ks)) f
    ∙ ap (λ x. are_unique (m ∷ x ∷ ks)) e
are_unique-Permᴰ (Permᴰ.trans d e) = are_unique-Permᴰ d ∙ are_unique-Permᴰ e

pub are_unique-Perm : {xs ys : List Text} → Perm xs ys → are_unique xs ≡ are_unique ys
are_unique-Perm {xs} {ys} d = ∥∥₁_elim d (Bool-set (are_unique xs) (are_unique ys)) are_unique-Permᴰ

-- Every flag is set.
flags-set : (ks : List Text) → any (λ (e : Text × Bool). not e.1) (flags ks) ≡ false
flags-set [] = refl
flags-set (k ∷ ks) = flags-set ks

keys-flags : (ks : List Text) → keys (flags ks) ≡ ks
keys-flags [] = refl
keys-flags (k ∷ ks) = ap (λ rest. k ∷ rest) (keys-flags ks)

capability_keys-keys :
    (d : List (Text × Bool))
    → any (λ (e : Text × Bool). not e.1) d ≡ false
    → any is_bad_key (keys d) ≡ false
    → capability_keys (object d) ≡ keys d
capability_keys-keys [] h k = refl
capability_keys-keys ((k, b) ∷ d) h v = ground (arith, capability_keys-keys d)

-- Of a dictionary that is stored and comes back in some order, the same keys are read, in that
-- order, and all are valid if the stored ones are.
pub reordered_lem :
    (d : List (Text × Bool)) (ks : List Text)
    → Perm d (flags ks)
    → any is_bad_key ks ≡ false
    → (capability_keys (object d) ≡ keys d) × Perm (keys d) ks × (any is_bad_key (keys d) ≡ false)
reordered_lem d ks same valid =
    let set = any-Perm (λ (e : Text × Bool). not e.1) same ∙ flags-set ks in
    let kept : Perm (keys d) ks =
      rw (keys-flags ks) at (Perm.map (λ (e : Text × Bool). e.0) same) in
    let still = any-Perm is_bad_key kept ∙ valid in (capability_keys-keys d set still, kept, still)
