-- ===== src/Ovs/Sched/Sorting.antt =====
-- What sorting keeps, and that it sorts.
use repath.Base.{
  ℕ, ◌+◌, ◌≤◌, ◌≡◌, refl, Bool, true, false, List, [], ◌∷◌, length, if◌then◌else◌, ℤ, is_neg,
  countp, total, All, arith, inl, inr, Bool-cases,
}
use repath.Ovs.Sched.{insert_sorted, qsort}

module _ {A : Type 0} (compare : A → A → ℤ) where
  -- A quantity that is summed over the elements.
  total-insert_sorted :
      (g : A → ℕ) (x : A) (xs : List A) → total g (insert_sorted compare x xs) ≡ g x + total g xs
  unfolding insert_sorted
  total-insert_sorted g x [] = refl
  total-insert_sorted g x (y ∷ ys) = ground (arith, total-insert_sorted g x ys)

  pub total-qsort : (g : A → ℕ) (xs : List A) → total g (qsort compare xs) ≡ total g xs
  unfolding qsort
  total-qsort g [] = refl
  total-qsort g (x ∷ xs) =
      omega (arith, total-insert_sorted g x (qsort compare xs), total-qsort g xs)

  countp-insert_sorted :
      (p : A → Bool) (x : A) (xs : List A)
      → countp p (insert_sorted compare x xs) ≡ (if p x then 1 else 0) + countp p xs
  unfolding insert_sorted
  countp-insert_sorted p x [] = refl
  countp-insert_sorted p x (y ∷ ys) = ground (arith, countp-insert_sorted p x ys)

  pub countp-qsort : (p : A → Bool) (xs : List A) → countp p (qsort compare xs) ≡ countp p xs
  unfolding qsort
  countp-qsort p [] = refl
  countp-qsort p (x ∷ xs) =
      omega (arith, countp-insert_sorted p x (qsort compare xs), countp-qsort p xs)

  length-insert_sorted : (x : A) (xs : List A) → length (insert_sorted compare x xs) ≡ 1 + length xs
  unfolding insert_sorted
  length-insert_sorted x [] = refl
  length-insert_sorted x (y ∷ ys) = ground (arith, length-insert_sorted x ys)

  pub length-qsort : (xs : List A) → length (qsort compare xs) ≡ length xs
  unfolding qsort
  length-qsort [] = refl
  length-qsort (x ∷ xs) = omega (arith, length-insert_sorted x (qsort compare xs), length-qsort xs)

  All-insert_sorted :
      (P : A → Type 0) (x : A) (xs : List A) → P x → All P xs → All P (insert_sorted compare x xs)
  unfolding insert_sorted
  All-insert_sorted P x [] h all = (h, tt)
  All-insert_sorted P x (y ∷ ys) h all = elim (Bool-cases (is_neg (compare y x))) [
    | inl e ↦ rw e (all.0, All-insert_sorted P x ys h all.1)
    | inr e ↦ rw e (h, all)
  ]

  pub All-qsort : (P : A → Type 0) (xs : List A) → All P xs → All P (qsort compare xs)
  unfolding qsort
  All-qsort P [] all = tt
  All-qsort P (x ∷ xs) all = All-insert_sorted P x (qsort compare xs) all.0 (All-qsort P xs all.1)

  -- By a key that falls where the comparison is negative or equal keys meet, the result descends.
  module _ (key : A → ℕ) where
    abbrev pub Descends : List A → Type 0
    Descends [] = Unit
    Descends (x ∷ xs) = All (λ y. key y ≤ key x) xs × Descends xs

    All-key-le : {m n : ℕ} (xs : List A) → m ≤ n → All (λ y. key y ≤ m) xs → All (λ y. key y ≤ n) xs
    All-key-le [] h all = tt
    All-key-le (x ∷ xs) h all = (omega arith, All-key-le xs h all.1)

    module _ (falls : (a b : A) → is_neg (compare a b) ≡ true → key b ≤ key a) where
      module _ (stays : (a b : A) → is_neg (compare a b) ≡ false → key a ≤ key b) where
        Descends-insert_sorted :
            (x : A) (xs : List A) → Descends xs → Descends (insert_sorted compare x xs)
        unfolding insert_sorted
        Descends-insert_sorted x [] d = (tt, tt)
        Descends-insert_sorted x (y ∷ ys) d = elim (Bool-cases (is_neg (compare y x))) [
          | inl e ↦ rw e (
            All-insert_sorted (λ z. key z ≤ key y) x ys (falls y x e) d.0,
            Descends-insert_sorted x ys d.1,
          )
          | inr e ↦ rw e ((stays y x e, All-key-le ys (stays y x e) d.0), d)
        ]

        pub Descends-qsort : (xs : List A) → Descends (qsort compare xs)
        unfolding qsort
        Descends-qsort [] = tt
        Descends-qsort (x ∷ xs) = Descends-insert_sorted x (qsort compare xs) (Descends-qsort xs)
