-- ===== src/Ovs/Sched/Balance/Variance.antt =====
-- The variance of the loads, and what the improvement comes to.
use repath.Base.{
  ℕ, zero, suc, ◌+◌, ◌-◌, ◌*◌, ◌/◌, ◌%◌, ◌^◌, ◌≤◌, ◌<◌, ◌≡◌, refl, sym, ap, ◌∙◌, List, [], ◌∷◌,
  length, total, ltb, ◌==◌, if◌then◌else◌, add64, sub64, mul64, arith, inl, inr, Bool-cases,
}
use native.Mathlib.Nat.{mul-add, add-mul, mul_comm, zero-div, div-le_self}
use repath.Ovs.Sched.Balance.{sum_from, sq_diff_from, variance}

-- The distance of a value to the mean.
abbrev pub deviation : ℕ → ℕ → ℕ
deviation mean a = if ltb a mean then mean - a else a - mean

abbrev pub squared : ℕ → ℕ → ℕ
squared mean a = deviation mean a * deviation mean a

square_wrap : (x d w : ℕ) → x + d ≡ w → x * x + 2 * (w * d) ≡ d * d + w * w
square_wrap x d w e =
    rw (← e) (
      omega (arith, add-mul x d (x + d), mul-add x x d, mul-add d x d, add-mul x d d, mul_comm d x))

-- Whether the difference wraps or not, its square is the square of the distance.
mul64-sub64 :
    (a mean : ℕ)
    → a < 2 ^ 64
    → mean < 2 ^ 64
    → mul64 (sub64 a mean) (sub64 a mean) ≡ squared mean a % 2 ^ 64
mul64-sub64 a mean h k = elim (Bool-cases (ltb a mean)) [
  | inl e ↦
      let lt : a < mean = ground (arith, e) in
      let x : sub64 a mean ≡ 2 ^ 64 - (mean - a) = omega arith in
      let wraps = square_wrap (2 ^ 64 - (mean - a)) (mean - a) (2 ^ 64) (omega arith) in
      rw x (rw e (omega (arith, wraps)))
  | inr e ↦ let x : sub64 a mean ≡ a - mean = ground (arith, e) in rw x (rw e refl)
]

sum_from-total :
    (sum : ℕ) (as' : List ℕ)
    → sum + total (λ a. a) as' < 2 ^ 64
    → sum_from sum as' ≡ sum + total (λ a. a) as'
unfolding sum_from
sum_from-total sum [] h = omega arith
sum_from-total sum (a ∷ rest) h =
    let x : add64 sum a ≡ sum + a = omega arith in
    rw x (sum_from-total (sum + a) rest (omega arith) ∙ omega arith)

sq_diff_from-total :
    (mean sq : ℕ) (values : List ℕ)
    → mean < 2 ^ 64
    → total (λ a. a) values < 2 ^ 64
    → sq + total (squared mean) values < 2 ^ 64
    → sq_diff_from mean sq values ≡ sq + total (squared mean) values
unfolding sq_diff_from
sq_diff_from-total mean sq [] m v h = omega arith
sq_diff_from-total mean sq (a ∷ rest) m v h =
    let square = mul64-sub64 a mean (omega arith) m in
    let x : add64 sq (mul64 (sub64 a mean) (sub64 a mean)) ≡ sq + squared mean a =
      omega (arith, square) in
    rw x (
      sq_diff_from-total mean (sq + squared mean a) rest m (omega arith) (omega arith)
      ∙ omega arith)

total-zero : (values : List ℕ) → total (λ a. a) values ≡ 0 → total (squared 0) values ≡ 0
total-zero [] h = refl
total-zero (zero ∷ rest) h = omega (arith, total-zero rest (omega arith))
total-zero (suc a ∷ rest) h = absurd (omega arith)

guarded_quotient : (s n : ℕ) → (if s == 0 then 0 else s / n) ≡ s / n
guarded_quotient zero n = sym (zero-div n)
guarded_quotient (suc s) n = ground arith

-- The sum of the squares, which is not computed where the values are all 0.
squares-total :
    (values : List ℕ) (mean : ℕ)
    → mean ≡ total (λ a. a) values / length values
    → total (λ a. a) values < 2 ^ 64
    → total (squared mean) values < 2 ^ 64
    → (if total (λ a. a) values == 0 then 0 else sq_diff_from mean 0 values)
      ≡ total (squared mean) values
squares-total values mean m h k = elim (Bool-cases (total (λ a. a) values == 0)) [
  | inl e ↦
      let none_in : total (λ a. a) values ≡ 0 = ground (arith, e) in
      let at_zero : mean ≡ 0 = m ∙ ap (λ t. t / length values) none_in ∙ zero-div (length values) in
      rw e (sym (ap (λ t. total (squared t) values) at_zero ∙ total-zero values none_in))
  | inr e ↦
      let bound : mean ≤ total (λ a. a) values =
        rw m (div-le_self (total (λ a. a) values) (length values)) in
      rw e (sq_diff_from-total mean 0 values (omega arith) h (omega arith) ∙ omega arith)
]

-- While the sum of the values and the sum of the squares fit in 64 bits, the function returns the
-- mean of the squared distances to the mean, both rounded down, although it squares differences that
-- have wrapped.
pub variance-total :
    (values : List ℕ)
    → 0 < length values
    → total (λ a. a) values < 2 ^ 64
    → total (squared (total (λ a. a) values / length values)) values < 2 ^ 64
    → variance values
      ≡ total (squared (total (λ a. a) values / length values)) values / length values
unfolding variance
variance-total [] n h k = absurd (omega arith)
variance-total (a ∷ rest) n h k =
    let values = a ∷ rest in
    let sum : sum_from 0 values ≡ total (λ b. b) values =
      sum_from-total 0 values (omega arith) ∙ omega arith in
    let squares = squares-total values (total (λ b. b) values / length values) refl h k in
    ap (λ t. finish (if t == 0 then 0 else sq_diff_from (t / length values) 0 values)) sum
    ∙ ap finish squares
    ∙ guarded_quotient _ (length values)
  where
    finish : ℕ → ℕ
    finish sq = if sq == 0 then 0 else sq / length (a ∷ rest)
