-- ===== src/Ovs/Sched/Assign/Pinning.antt =====
-- The first loop of sched_numa_list_schedule: a pinned queue goes to the thread of its core.
use repath.Base.{
  ℕ, suc, ◌+◌, ◌≤◌, ◌≡◌, refl, Bool, true, false, some, List, [], ◌∷◌, length-append, if◌then◌else◌,
  get_elem?, countp, countp-append, countp-modify, total, total-modify, All, All-modify, All-append,
  length-modify, modify, arith, inl, inr, ◌==◌, ==_iff, Bool-cases, Option-cases,
}
use mathlib.Core.Path.{subst}
use repath.Ovs.Sched.{PmdThread, Rxq, SchedPmd, SchedNuma}
use repath.Ovs.Sched.Assign.{
  dp_netdev_get_pmd, find_in_numa, sched_pmd_find_by_pmd, sched_pmd_add_rxq, pin_pmd,
  newly_isolated, pin_numa,
}
use repath.Ovs.Sched.Assign.Sound.{IsSound, polled_by, work_of, weight}

-- Every queue of a thread is pinned to its core.
abbrev pub HasPinned : SchedPmd → Type 0
HasPinned p = All (λ rxq. rxq.core_id ≡ some p.pmd.core_id) p.rxqs

abbrev pub NumaHasPinned : SchedNuma → Type 0
NumaHasPinned numa = All HasPinned numa.pmds

pub dp_netdev_get_pmd-core_id :
    (pmds : List PmdThread) (core : ℕ) {pmd : PmdThread}
    → dp_netdev_get_pmd pmds core ≡ some pmd
    → pmd.core_id ≡ core
unfolding dp_netdev_get_pmd
dp_netdev_get_pmd-core_id [] core e = cc
dp_netdev_get_pmd-core_id (p ∷ pmds) core {pmd} e =
    ground (arith, e, dp_netdev_get_pmd-core_id pmds core {pmd = pmd})

find_in_numa-at :
    (pmds : List SchedPmd) (core j : ℕ)
    → find_in_numa pmds core ≡ some j
    → (p : SchedPmd) × (get_elem? pmds j ≡ some p) × (p.pmd.core_id ≡ core)
unfolding find_in_numa
find_in_numa-at [] core j e = absurd (ground (arith, e))
find_in_numa-at (q ∷ pmds) core j e = elim (Bool-cases (q.pmd.core_id == core)) [
  | inl here ↦ let zero_j : j ≡ 0 = ground (arith, e) in (q, rw zero_j refl, (==_iff _ _).0 here)
  | inr there ↦ elim (Option-cases (find_in_numa pmds core)) [
    | inl lost ↦ absurd (ground (arith, e))
    | inr (k, found) ↦
        let (p, at, same) = find_in_numa-at pmds core k found in
        let suc_j : j ≡ suc k = ground (arith, e) in (p, rw suc_j at, same)
  ]
]

pub find_by_pmd-at :
    (numas : List SchedNuma) (pmd : PmdThread) (i j : ℕ)
    → sched_pmd_find_by_pmd numas pmd ≡ some (i, j)
    → (numa : SchedNuma) × (p : SchedPmd) × (get_elem? numas i ≡ some numa)
      × (get_elem? numa.pmds j ≡ some p)
      × (p.pmd.core_id ≡ pmd.core_id)
unfolding sched_pmd_find_by_pmd
find_by_pmd-at [] pmd i j e = absurd (ground (arith, e))
find_by_pmd-at (numa ∷ numas) pmd i j e = elim (Option-cases (find_in_numa numa.pmds pmd.core_id)) [
  | inr (k, found) ↦
      let here : (i ≡ 0) × (j ≡ k) = ground (arith, e, found) in
      let (p, at, same) = find_in_numa-at numa.pmds pmd.core_id k found in
      (numa, p, rw (here.0) refl, rw (here.1) at, same)
  | inl lost ↦ elim (Option-cases (sched_pmd_find_by_pmd numas pmd)) [
    | inl lost' ↦ absurd (ground (arith, e, lost))
    | inr ((i', j'), found) ↦
        let there : (i ≡ suc i') × (j ≡ j') = ground (arith, e, lost, found) in
        let (numa', p, at, at_j, same) = find_by_pmd-at numas pmd i' j' found in
        (numa', p, rw (there.0) at, rw (there.1) at_j, same)
  ]
]

pin_pmd-HasPinned :
    (iso : Bool) (rxq : Rxq) (p : SchedPmd)
    → rxq.core_id ≡ some p.pmd.core_id
    → HasPinned p
    → HasPinned (pin_pmd iso rxq p)
unfolding pin_pmd sched_pmd_add_rxq
pin_pmd-HasPinned true rxq p same h = All-append _ p.rxqs (rxq ∷ []) h (same, tt)
pin_pmd-HasPinned false rxq p same h = All-append _ p.rxqs (rxq ∷ []) h (same, tt)

-- The queue at the thread that has its core.
module _ (iso : Bool) (rxq : Rxq) (pmds : List SchedPmd) (j : ℕ) {p : SchedPmd} where
  module _ (at : get_elem? pmds j ≡ some p) where
    pub pinned-polled :
        (test : Rxq → Bool)
        → total (polled_by test) (modify pmds j (pin_pmd iso rxq))
          ≡ total (polled_by test) pmds + (if test rxq then 1 else 0)
    unfolding pin_pmd sched_pmd_add_rxq
    pinned-polled test = ground (
      arith,
      total-modify (polled_by test) pmds j (pin_pmd iso rxq) at,
      countp-append test p.rxqs (rxq ∷ []),
    )

    pub pinned-work :
        total work_of (modify pmds j (pin_pmd iso rxq)) ≤ total work_of pmds + weight rxq
    unfolding pin_pmd sched_pmd_add_rxq
    pinned-work =
        ground
          (arith, total-modify work_of pmds j (pin_pmd iso rxq) at, length-append p.rxqs (rxq ∷ []))

    pinned-isolated :
        countp (λ q. q.isolated) (modify pmds j (pin_pmd iso rxq))
        ≡ countp (λ q. q.isolated) pmds + newly_isolated iso (get_elem? pmds j)
    unfolding pin_pmd sched_pmd_add_rxq newly_isolated
    pinned-isolated =
        rw at (ground (arith, countp-modify (λ q. q.isolated) pmds j (pin_pmd iso rxq) at))

    pub pinned-HasPinned :
        rxq.core_id ≡ some p.pmd.core_id
        → All HasPinned pmds
        → All HasPinned (modify pmds j (pin_pmd iso rxq))
    pinned-HasPinned same all =
        All-modify pmds j (pin_pmd iso rxq)
          (λ q at_q h.
            let found : p ≡ q = cc in
            pin_pmd-HasPinned iso rxq q (subst (λ r. rxq.core_id ≡ some r.pmd.core_id) found same)
              h)
          all

pub pin_numa-IsSound :
    (iso : Bool) (rxq : Rxq) (j : ℕ) (numa : SchedNuma) {p : SchedPmd}
    → get_elem? numa.pmds j ≡ some p
    → IsSound numa
    → IsSound (pin_numa iso rxq j numa)
unfolding pin_numa
pin_numa-IsSound iso rxq j numa at s = record {
  in_range = omega (arith, s.in_range, length-modify numa.pmds j (pin_pmd iso rxq));
  counted = omega (arith, s.counted, pinned-isolated iso rxq numa.pmds j at);
}
