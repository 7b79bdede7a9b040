-- ===== src/Hopa/Paths/Minimum.antt =====
-- get_min_delay_path_id finds the first of the shortest delays.
use repath.Base.{ℕ, zero, suc, ◌+◌, ◌-◌, ◌≤◌, ◌<◌, List, ltb, get_or, if◌then◌else◌, arith}
use mathlib.Core.Path.{subst}
use native.Mathlib.Nat.{add-zero}
use repath.Hopa.Paths.{min_delay_from, get_min_delay_path_id}

-- `p` is the first index below `n` at which the delay is least.
pub record IsFirstMin (delays : List ℕ) (n p : ℕ) : Type 0 where
  pub inside : p < n
  pub least : (j : ℕ) → j < n → get_or delays p 0 ≤ get_or delays j 0
  pub first : (j : ℕ) → j < p → get_or delays p 0 < get_or delays j 0

module _ (delays : List ℕ) where
  extend :
      (i p : ℕ)
      → IsFirstMin delays i p
      → IsFirstMin delays (i + 1) (if ltb (get_or delays i 0) (get_or delays p 0) then i else p)
  extend i p v = record {
    inside = ground (arith, v.inside);
    least = λ j h. grind (arith, v.least);
    first = λ j h. grind (arith, v.least, v.first, v.inside);
  }

  min_delay_from-IsFirstMin :
      (rounds i p : ℕ)
      → IsFirstMin delays i p
      → IsFirstMin delays (i + rounds) (min_delay_from delays rounds i p)
  unfolding min_delay_from
  min_delay_from-IsFirstMin zero i p v = rw add-zero v
  min_delay_from-IsFirstMin (suc rounds) i p v =
      subst (λ n. IsFirstMin delays n (min_delay_from delays (suc rounds) i p)) (omega arith)
        (min_delay_from-IsFirstMin rounds (i + 1) _ (extend i p v))

  -- Of the first `n` delays the function returns the first that is least, for every `n` but 0.
  pub get_min_delay_path_id-IsFirstMin :
      (n : ℕ) → 0 < n → IsFirstMin delays n (get_min_delay_path_id delays n)
  unfolding get_min_delay_path_id
  get_min_delay_path_id-IsFirstMin n h =
      subst (λ k. IsFirstMin delays k (min_delay_from delays (n - 1) 1 0)) (omega arith)
        (min_delay_from-IsFirstMin (n - 1) 1 0 (record {
          inside = omega arith;
          least = λ j below. grind arith;
          first = λ j below. absurd (omega arith);
        }))
