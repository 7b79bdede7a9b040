-- ===== src/Base/Collect.antt =====
-- Changes in place, counts, sums and properties of the elements of a list.
use Prim.Native.Nat.{ℕ, zero, suc, ◌+◌, ◌<◌, ◌≤◌}
use mathlib.Core.Path.{◌≡◌, refl, ap, subst}
use mathlib.Core.Logic.{◌⊎◌, inl, inr}
use mathlib.Core.List.{List, [], ◌∷◌, ◌++◌}
use mathlib.Core.Option.{some}
use mathlib.Core.Bool.{Bool, true, not}
use native.Mathlib.Omega.{arith}
use repath.Base.Tests.{if◌then◌else◌, ltb, ltb→lt, Bool-cases}
use repath.Base.Lists.{length, get_elem?, set}

module _ {ℓ} {A : Type ℓ} where
  -- A change in place at an index; out of bounds it changes nothing.
  abbrev pub modify : List A → ℕ → (A → A) → List A
  modify [] i f = []
  modify (x ∷ xs) zero f = f x ∷ xs
  modify (x ∷ xs) (suc i) f = x ∷ modify xs i f

  -- How many elements pass a test.
  abbrev pub countp : (A → Bool) → List A → ℕ
  countp p [] = 0
  countp p (x ∷ xs) = (if p x then 1 else 0) + countp p xs

  -- The sum of a quantity over the elements.
  abbrev pub total : (A → ℕ) → List A → ℕ
  total f [] = 0
  total f (x ∷ xs) = f x + total f xs

  abbrev pub All {κ} : (A → Type κ) → List A → Type κ
  All P [] = Unit
  All P (x ∷ xs) = P x × All P xs

module _ {ℓ} {A : Type ℓ} where
  pub countp-append :
      (p : A → Bool) (xs ys : List A) → countp p (xs ++ ys) ≡ countp p xs + countp p ys
  countp-append p [] ys = omega arith
  countp-append p (x ∷ xs) ys = omega (arith, countp-append p xs ys)

  pub length-modify : (xs : List A) (i : ℕ) (f : A → A) → length (modify xs i f) ≡ length xs
  length-modify [] i f = refl
  length-modify (x ∷ xs) zero f = refl
  length-modify (x ∷ xs) (suc i) f = ap suc (length-modify xs i f)

  pub total-modify :
      (g : A → ℕ) (xs : List A) (i : ℕ) (f : A → A) {x : A}
      → get_elem? xs i ≡ some x
      → total g (modify xs i f) + g x ≡ total g xs + g (f x)
  total-modify g [] i f e = cc
  total-modify g (y ∷ xs) zero f e = ground (arith, e)
  total-modify g (y ∷ xs) (suc i) f e = omega (arith, total-modify g xs i f e)

  pub All-modify {κ} :
      {P : A → Type κ} (xs : List A) (i : ℕ) (f : A → A)
      → ((x : A) → get_elem? xs i ≡ some x → P x → P (f x))
      → All P xs
      → All P (modify xs i f)
  All-modify [] i f keep h = tt
  All-modify (x ∷ xs) zero f keep h = (keep x refl h.0, h.1)
  All-modify (x ∷ xs) (suc i) f keep h = (h.0, All-modify xs i f keep h.1)

  pub All-get_elem? {κ} :
      (P : A → Type κ) (xs : List A) (i : ℕ) {x : A} → All P xs → get_elem? xs i ≡ some x → P x
  All-get_elem? P [] i h e = cc
  All-get_elem? P (y ∷ xs) zero h e = subst P (cc) h.0
  All-get_elem? P (y ∷ xs) (suc i) h e = All-get_elem? P xs i h.1 e

  pub get_elem?-some : (xs : List A) (i : ℕ) → i < length xs → (x : A) × (get_elem? xs i ≡ some x)
  get_elem?-some [] i h = elim h [ ]
  get_elem?-some (x ∷ xs) zero h = (x, refl)
  get_elem?-some (x ∷ xs) (suc i) h = get_elem?-some xs i (omega arith)

  pub get_elem?-lt : (xs : List A) (i : ℕ) {x : A} → get_elem? xs i ≡ some x → i < length xs
  get_elem?-lt [] i e = cc
  get_elem?-lt (x ∷ xs) zero e = omega arith
  get_elem?-lt (x ∷ xs) (suc i) e = omega (arith, get_elem?-lt xs i e)

module _ {ℓ} {A : Type ℓ} where
  pub total-set :
      (g : A → ℕ) (xs : List A) (i : ℕ) (v : A) {x : A}
      → get_elem? xs i ≡ some x
      → total g (set xs i v) + g x ≡ total g xs + g v
  total-set g [] i v e = cc
  total-set g (y ∷ xs) zero v e = ground (arith, e)
  total-set g (y ∷ xs) (suc i) v e = omega (arith, total-set g xs i v e)

  pub All-set {κ} :
      (P : A → Type κ) (xs : List A) (i : ℕ) (v : A) → P v → All P xs → All P (set xs i v)
  All-set P [] i v p h = tt
  All-set P (x ∷ xs) zero v p h = (p, h.1)
  All-set P (x ∷ xs) (suc i) v p h = (h.0, All-set P xs i v p h.1)

  pub countp-modify :
      (p : A → Bool) (xs : List A) (i : ℕ) (f : A → A) {x : A}
      → get_elem? xs i ≡ some x
      → countp p (modify xs i f) + (if p x then 1 else 0) ≡ countp p xs + (if p (f x) then 1 else 0)
  countp-modify p [] i f e = cc
  countp-modify p (y ∷ xs) zero f e = ground (arith, e)
  countp-modify p (y ∷ xs) (suc i) f e = omega (arith, countp-modify p xs i f e)

  pub countp-not :
      (p : A → Bool) (xs : List A) → countp p xs + countp (λ x. not (p x)) xs ≡ length xs
  countp-not p [] = omega arith
  countp-not p (x ∷ xs) = ground (arith, countp-not p xs)

  pub total-get_elem? :
      (g : A → ℕ) (xs : List A) (i : ℕ) {x : A} → get_elem? xs i ≡ some x → g x ≤ total g xs
  total-get_elem? g [] i e = cc
  total-get_elem? g (y ∷ xs) zero e = ground (arith, e)
  total-get_elem? g (y ∷ xs) (suc i) e = omega (arith, total-get_elem? g xs i e)

  -- An element for which a quantity is above 0, unless their sum is 0.
  pub total-cases :
      (g : A → ℕ) (xs : List A)
      → (total g xs ≡ 0) ⊎ ((i : ℕ) × (x : A) × (get_elem? xs i ≡ some x) × (0 < g x))
  total-cases g [] = inl refl
  total-cases g (y ∷ xs) = elim (total-cases g xs) [
    | inr (i, x, e, h) ↦ inr (suc i, x, e, h)
    | inl none_in ↦ elim (Bool-cases (ltb 0 (g y))) [
      | inl h ↦ inr (0, y, refl, ltb→lt _ _ h)
      | inr h ↦ inl (ground arith)
    ]
  ]

  pub countp-cases :
      (p : A → Bool) (xs : List A)
      → (countp p xs ≡ 0) ⊎ ((i : ℕ) × (x : A) × (get_elem? xs i ≡ some x) × (p x ≡ true))
  countp-cases p [] = inl refl
  countp-cases p (y ∷ xs) = elim (countp-cases p xs) [
    | inr (i, x, e, h) ↦ inr (suc i, x, e, h)
    | inl none_in ↦ elim (Bool-cases (p y)) [
      | inl h ↦ inr (0, y, refl, h)
      | inr h ↦ inl (ground arith)
    ]
  ]

  pub All-append {κ} : (P : A → Type κ) (xs ys : List A) → All P xs → All P ys → All P (xs ++ ys)
  All-append P [] ys h k = k
  All-append P (x ∷ xs) ys h k = (h.0, All-append P xs ys h.1 k)

  pub total-append : (g : A → ℕ) (xs ys : List A) → total g (xs ++ ys) ≡ total g xs + total g ys
  total-append g [] ys = omega arith
  total-append g (x ∷ xs) ys = omega (arith, total-append g xs ys)
