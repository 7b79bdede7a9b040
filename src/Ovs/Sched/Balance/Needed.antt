-- ===== src/Ovs/Sched/Balance/Needed.antt =====
-- When a rebalance is tried, and what the improvement comes to.
use repath.Base.{
  ℕ, ◌-◌, ◌*◌, ◌/◌, ◌≤◌, ◌<◌, ◌≡◌, refl, Bool, not, ◌&&◌, ◌||◌, length, ltb, arith, inl, inr,
  Bool-cases, ltb→lt, ltb-false, sym, sub64, mul64, ◌^◌,
}
use native.Mathlib.Nat.{zero-div, div-le_of_le-mul}
use repath.Ovs.Sched.{PmdThread}
use repath.Ovs.Sched.Balance.{improvement}

-- A thread that queues can be moved to and from, and one that polls more than one.
abbrev pub is_worker : PmdThread → Bool
is_worker p = not (p.is_non_pmd || p.isolated)

abbrev pub is_loaded : PmdThread → Bool
is_loaded p = is_worker p && ltb 1 (length p.poll_list)

-- While a hundred times the variance fits in 64 bits, the improvement is the percentage by which
-- the variance falls, rounded down; it is 0 where the variance does not fall, and at most 100.
pub improvement-percent :
    (current estimate : ℕ)
    → current * 100 < 2 ^ 64
    → (improvement current estimate ≡ (current - estimate) * 100 / current)
      × (improvement current estimate ≤ 100)
unfolding improvement
improvement-percent current estimate h = elim (Bool-cases (ltb estimate current)) [
  | inl e ↦
      let lt : estimate < current = ltb→lt _ _ e in
      let x : mul64 (sub64 current estimate) 100 ≡ (current - estimate) * 100 = omega arith in
      rw e (rw x (refl, div-le_of_le-mul current (omega arith)))
  | inr e ↦
      let le : current ≤ estimate = ltb-false _ _ e in
      let x : (current - estimate) * 100 ≡ 0 = omega arith in
      rw e (rw x (sym (zero-div current)), omega arith)
]
