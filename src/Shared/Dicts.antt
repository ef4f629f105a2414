-- ===== src/Shared/Dicts.antt =====
-- Python's `dict` as an association list with one entry for each key.
use mathlib.Core.Path.{◌≡◌, refl, ap, sym, ◌∙◌}
use mathlib.Core.Logic.{◌≢◌, ◌↔◌, inl, inr}
use mathlib.Core.Bool.{Bool, true, false}
use mathlib.Core.Option.{Option, none, some}
use mathlib.Core.List.{List, [], ◌∷◌}
use muxivo_console.Shared.Tests.{Bool-cases, if◌then◌else◌}

-- The equality of keys.
pub record Keys (K : Type 0) : Type 0 where
  pub same : K → K → Bool
  pub same_iff : (a b : K) → (same a b ≡ true) ↔ (a ≡ b)

-- What a comprehension keeps of an entry.
abbrev pub only : {V : Type 0} → (V → Bool) → Option V → Option V
only p none = none
only p (some v) = if p v then some v else none

module _ {K : Type 0} ⦃keys : Keys K⦄ where
  same_self : (k : K) → keys.same k k ≡ true
  same_self k = (keys.same_iff k k).1 refl

  differ : (k j : K) → keys.same k j ≡ false → j ≢ k
  differ k j e eq = absurd (cc (e, (keys.same_iff k j).1 (sym eq)))

  apart : (k j : K) → k ≢ j → keys.same k j ≡ false
  apart k j ne = elim (Bool-cases (keys.same k j)) [
    | inl e ↦ absurd (ne ((keys.same_iff k j).0 e))
    | inr e ↦ e
  ]

module _ {K V : Type 0} ⦃keys : Keys K⦄ where
  -- `d.get(key)`
  abbrev pub get : K → List (K × V) → Option V
  get key [] = none
  get key ((k, v) ∷ d) = if keys.same k key then some v else get key d

  -- `d[key] = value`
  abbrev pub set : K → V → List (K × V) → List (K × V)
  set key value [] = (key, value) ∷ []
  set key value ((k, v) ∷ d) = if keys.same k key then (k, value) ∷ d else (k, v) ∷ set key value d

  -- `del d[key]`, of a key that is present.
  abbrev pub delete : K → List (K × V) → List (K × V)
  delete key [] = []
  delete key ((k, v) ∷ d) = if keys.same k key then d else (k, v) ∷ delete key d

  -- `{key: v for key, v in d.items() if p(v)}`
  abbrev pub keep : (V → Bool) → List (K × V) → List (K × V)
  keep p [] = []
  keep p ((k, v) ∷ d) = if p v then (k, v) ∷ keep p d else keep p d

  -- One entry for each key.
  abbrev pub IsDict : List (K × V) → Type 0
  IsDict [] = Unit
  IsDict ((k, v) ∷ d) = (get k d ≡ none) × IsDict d

  pub get-set : (key : K) (v : V) (d : List (K × V)) → get key (set key v d) ≡ some v
  get-set key v [] = rw (same_self key) refl
  get-set key v ((k, w) ∷ d) = elim (Bool-cases (keys.same k key)) [
    | inl e ↦ rw e (rw e refl)
    | inr e ↦ rw e (rw e (get-set key v d))
  ]

  pub get-set_ne : (j key : K) (v : V) (d : List (K × V)) → key ≢ j → get j (set key v d) ≡ get j d
  get-set_ne j key v [] ne = rw (apart key j ne) refl
  get-set_ne j key v ((k, w) ∷ d) ne = elim (Bool-cases (keys.same k key)) [
    | inl e ↦
        let here : k ≡ key = (keys.same_iff k key).0 e in
        let other : keys.same k j ≡ false = apart k j (λ same. ne (sym here ∙ same)) in
        rw e (rw other refl)
    | inr e ↦ elim (Bool-cases (keys.same k j)) [
      | inl f ↦ rw e (rw f refl)
      | inr f ↦ rw e (rw f (get-set_ne j key v d ne))
    ]
  ]

  pub set-IsDict : (key : K) (v : V) (d : List (K × V)) → IsDict d → IsDict (set key v d)
  set-IsDict key v [] u = (refl, tt)
  set-IsDict key v ((k, w) ∷ d) u = elim (Bool-cases (keys.same k key)) [
    | inl e ↦ rw e u
    | inr e ↦ rw e (get-set_ne k key v d (differ k key e) ∙ u.0, set-IsDict key v d u.1)
  ]

  pub get-delete : (key : K) (d : List (K × V)) → IsDict d → get key (delete key d) ≡ none
  get-delete key [] u = refl
  get-delete key ((k, w) ∷ d) u = elim (Bool-cases (keys.same k key)) [
    | inl e ↦ rw e (ap (λ x. get x d) (sym ((keys.same_iff k key).0 e)) ∙ u.0)
    | inr e ↦ rw e (rw e (get-delete key d u.1))
  ]

  pub get-delete_ne : (j key : K) (d : List (K × V)) → key ≢ j → get j (delete key d) ≡ get j d
  get-delete_ne j key [] ne = refl
  get-delete_ne j key ((k, w) ∷ d) ne = elim (Bool-cases (keys.same k key)) [
    | inl e ↦
        let here : k ≡ key = (keys.same_iff k key).0 e in
        let other : keys.same k j ≡ false = apart k j (λ same. ne (sym here ∙ same)) in
        rw e (rw other refl)
    | inr e ↦ elim (Bool-cases (keys.same k j)) [
      | inl f ↦ rw e (rw f refl)
      | inr f ↦ rw e (rw f (get-delete_ne j key d ne))
    ]
  ]

  get-delete-none : (j key : K) (d : List (K × V)) → get j d ≡ none → get j (delete key d) ≡ none
  get-delete-none j key [] h = refl
  get-delete-none j key ((k, w) ∷ d) h = elim (Bool-cases (keys.same k j)) [
    | inl f ↦ absurd (cc (rw f at h))
    | inr f ↦ elim (Bool-cases (keys.same k key)) [
      | inl e ↦ rw e (rw f at h)
      | inr e ↦ rw e (rw f (get-delete-none j key d (rw f at h)))
    ]
  ]

  pub delete-IsDict : (key : K) (d : List (K × V)) → IsDict d → IsDict (delete key d)
  delete-IsDict key [] u = tt
  delete-IsDict key ((k, w) ∷ d) u = elim (Bool-cases (keys.same k key)) [
    | inl e ↦ rw e u.1
    | inr e ↦ rw e (get-delete-none k key d u.0, delete-IsDict key d u.1)
  ]

  pub get-keep :
      (j : K) (p : V → Bool) (d : List (K × V)) → IsDict d → get j (keep p d) ≡ only p (get j d)
  get-keep j p [] u = refl
  get-keep j p ((k, v) ∷ d) u = elim (Bool-cases (keys.same k j)) [
    | inl f ↦
        let here : k ≡ j = (keys.same_iff k j).0 f in
        let gone : get j d ≡ none = ap (λ x. get x d) (sym here) ∙ u.0 in
        elim (Bool-cases (p v)) [
          | inl e ↦ rw e (rw f (rw e refl))
          | inr e ↦ rw e (rw f (rw e (get-keep j p d u.1 ∙ ap (only p) gone)))
        ]
    | inr f ↦ elim (Bool-cases (p v)) [
      | inl e ↦ rw e (rw f (get-keep j p d u.1))
      | inr e ↦ rw e (rw f (get-keep j p d u.1))
    ]
  ]

  pub keep-IsDict : (p : V → Bool) (d : List (K × V)) → IsDict d → IsDict (keep p d)
  keep-IsDict p [] u = tt
  keep-IsDict p ((k, v) ∷ d) u = elim (Bool-cases (p v)) [
    | inl e ↦ rw e (get-keep k p d u.1 ∙ ap (only p) u.0, keep-IsDict p d u.1)
    | inr e ↦ rw e (keep-IsDict p d u.1)
  ]
