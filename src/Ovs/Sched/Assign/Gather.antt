-- ===== src/Ovs/Sched/Assign/Gather.antt =====
-- The first loop of sched_numa_list_schedule as a whole: which queues are left for the second.
use repath.Base.{
  ℕ, zero, suc, ◌+◌, ◌≤◌, ◌≡◌, refl, sym, ◌∙◌, Bool, true, false, Option, none, some, List, [], ◌∷◌,
  ◌++◌, get_elem?, countp, countp-append, total, total-modify, total-append, All, All-modify,
  All-append, modify, arith, inl, inr, Option-cases,
}
use mathlib.Core.Path.{subst}
use repath.Ovs.Sched.{PmdThread, Rxq, SchedPmd, SchedNuma}
use repath.Ovs.Sched.Assign.{
  dp_netdev_get_pmd, find_in_numa, sched_pmd_find_by_pmd, sched_pmd_add_rxq, pin_pmd, pin_numa,
  pinned_place, gather_rxq, gather_rxqs,
}
use repath.Ovs.Sched.Assign.Sound.{IsSound, polled_in, polled, work_in, work, weight}
use repath.Ovs.Sched.Assign.Pinning.{
  NumaHasPinned, dp_netdev_get_pmd-core_id, find_by_pmd-at, pinned-polled, pinned-work,
  pinned-HasPinned, pin_numa-IsSound,
}

-- Where a thread is does not depend on the queues that it has.
find_in_numa-pin :
    (iso : Bool) (rxq : Rxq) (pmds : List SchedPmd) (j core : ℕ)
    → find_in_numa (modify pmds j (pin_pmd iso rxq)) core ≡ find_in_numa pmds core
unfolding find_in_numa pin_pmd sched_pmd_add_rxq
find_in_numa-pin iso rxq [] j core = refl
find_in_numa-pin true rxq (p ∷ pmds) zero core = refl
find_in_numa-pin false rxq (p ∷ pmds) zero core = refl
find_in_numa-pin iso rxq (p ∷ pmds) (suc j) core =
    ground (arith, find_in_numa-pin iso rxq pmds j core)

find_by_pmd-pin :
    (iso : Bool) (rxq : Rxq) (numas : List SchedNuma) (i j : ℕ) (pmd : PmdThread)
    → sched_pmd_find_by_pmd (modify numas i (pin_numa iso rxq j)) pmd
      ≡ sched_pmd_find_by_pmd numas pmd
unfolding sched_pmd_find_by_pmd pin_numa
find_by_pmd-pin iso rxq [] i j pmd = refl
find_by_pmd-pin iso rxq (numa ∷ numas) zero j pmd =
    ground (arith, find_in_numa-pin iso rxq numa.pmds j pmd.core_id)
find_by_pmd-pin iso rxq (numa ∷ numas) (suc i) j pmd =
    ground (arith, find_by_pmd-pin iso rxq numas i j pmd)

pinned_place-pin :
    (pmds : List PmdThread) (iso : Bool) (rxq : Rxq) (numas : List SchedNuma) (i j : ℕ)
    (core : Option ℕ)
    → pinned_place pmds (modify numas i (pin_numa iso rxq j)) core ≡ pinned_place pmds numas core
unfolding pinned_place
pinned_place-pin pmds iso rxq numas i j none = refl
pinned_place-pin pmds iso rxq numas i j (some core) =
    elim (Option-cases (dp_netdev_get_pmd pmds core)) [
      | inl e ↦ ground (arith, e)
      | inr (pmd, e) ↦ ground (arith, e, find_by_pmd-pin iso rxq numas i j pmd)
    ]

-- The thread at the place of a pinned queue has its core.
pinned_place-at :
    (pmds : List PmdThread) (numas : List SchedNuma) (core : Option ℕ) (i j : ℕ)
    → pinned_place pmds numas core ≡ some (i, j)
    → (numa : SchedNuma) × (p : SchedPmd) × (get_elem? numas i ≡ some numa)
      × (get_elem? numa.pmds j ≡ some p)
      × (core ≡ some p.pmd.core_id)
unfolding pinned_place
pinned_place-at pmds numas none i j e = absurd (ground (arith, e))
pinned_place-at pmds numas (some core) i j e = elim (Option-cases (dp_netdev_get_pmd pmds core)) [
  | inl lost ↦ absurd (ground (arith, e, lost))
  | inr (pmd, found) ↦
      let place : sched_pmd_find_by_pmd numas pmd ≡ some (i, j) = ground (arith, e, found) in
      let (numa, p, at, at_j, same) = find_by_pmd-at numas pmd i j place in
      (numa, p, at, at_j, ground (arith, same, dp_netdev_get_pmd-core_id pmds core found))
]

-- What holds after some rounds that began with the nodes `before`, and what the rounds have done.
module _ (pmds : List PmdThread) (before : List SchedNuma) where
  pub record IsGathered (s : List SchedNuma × List Rxq) : Type 0 where
    pub sound : All IsSound s.0
    pub pinned : All NumaHasPinned s.0
    pub stable : (core : Option ℕ) → pinned_place pmds s.0 core ≡ pinned_place pmds before core
    pub left : All (λ rxq. pinned_place pmds before rxq.core_id ≡ none) s.1

pub record AreGathered (rxqs : List Rxq) (s t : List SchedNuma × List Rxq) : Type 0 where
  pub placed :
      (test : Rxq → Bool)
      → polled test t.0 + countp test t.1 ≡ polled test s.0 + countp test s.1 + countp test rxqs
  pub work_bound : work t.0 + total weight t.1 ≤ work s.0 + total weight s.1 + total weight rxqs

module _ (pmds : List PmdThread) (before numas : List SchedNuma) (iso : Bool) (rxq : Rxq)
    (rest : List Rxq) where
  module _ (g : IsGathered pmds before (numas, rest)) where
    IsGathered-left :
        pinned_place pmds numas rxq.core_id ≡ none
        → IsGathered pmds before (numas, rest ++ (rxq ∷ []))
    IsGathered-left lost = record {
      sound = g.sound;
      pinned = g.pinned;
      stable = g.stable;
      left =
          All-append (λ r. pinned_place pmds before r.core_id ≡ none) rest (rxq ∷ []) g.left
            (sym (g.stable rxq.core_id) ∙ lost, tt);
    }

    IsGathered-pinned :
        (i j : ℕ)
        → pinned_place pmds numas rxq.core_id ≡ some (i, j)
        → IsGathered pmds before (modify numas i (pin_numa iso rxq j), rest)
          × AreGathered (rxq ∷ []) (numas, rest) (modify numas i (pin_numa iso rxq j), rest)
    IsGathered-pinned i j found =
        let (numa, p, at, at_j, same) = pinned_place-at pmds numas rxq.core_id i j found in
        (
          record {
            sound =
                All-modify numas i (pin_numa iso rxq j)
                  (λ n at_n s.
                    let here : numa ≡ n = cc in
                    pin_numa-IsSound iso rxq j n
                      (subst (λ m. get_elem? m.pmds j ≡ some p) here at_j) s)
                  g.sound;
            pinned =
                All-modify numas i (pin_numa iso rxq j)
                  (λ n at_n h.
                    let here : numa ≡ n = cc in
                    unfold pin_numa in
                    pinned-HasPinned iso rxq n.pmds j
                      (subst (λ m. get_elem? m.pmds j ≡ some p) here at_j) same h)
                  g.pinned;
            stable = λ core. pinned_place-pin pmds iso rxq numas i j core ∙ g.stable core;
            left = g.left;
          },
          unfold pin_numa in
              record {
                placed = λ test. omega (
                  arith,
                  total-modify (polled_in test) numas i (pin_numa iso rxq j) at,
                  pinned-polled iso rxq numa.pmds j at_j test,
                );
                work_bound = omega (
                  arith,
                  total-modify work_in numas i (pin_numa iso rxq j) at,
                  pinned-work iso rxq numa.pmds j at_j,
                );
              },
        )

    gather_rxq-IsGathered :
        IsGathered pmds before (gather_rxq pmds iso rxq (numas, rest))
        × AreGathered (rxq ∷ []) (numas, rest) (gather_rxq pmds iso rxq (numas, rest))
    gather_rxq-IsGathered = elim (Option-cases (pinned_place pmds numas rxq.core_id)) [
      | inl lost ↦
          let shape : gather_rxq pmds iso rxq (numas, rest) ≡ (numas, rest ++ (rxq ∷ [])) =
            unfold gather_rxq in ground (arith, lost) in
          rw shape (
            IsGathered-left lost,
            record {
              placed = λ test. omega (arith, countp-append test rest (rxq ∷ []));
              work_bound = omega (arith, total-append weight rest (rxq ∷ []));
            },
          )
      | inr ((i, j), found) ↦
          let shape : gather_rxq pmds iso rxq (numas, rest)
              ≡ (modify numas i (pin_numa iso rxq j), rest) =
            unfold gather_rxq in ground (arith, found) in
          rw shape (IsGathered-pinned i j found)
    ]

-- The first loop: every queue is at the thread of its core, or left because there is none.
pub gather_rxqs-IsGathered :
    (pmds : List PmdThread) (before : List SchedNuma) (iso : Bool) (rxqs : List Rxq)
    (s : List SchedNuma × List Rxq)
    → IsGathered pmds before s
    → IsGathered pmds before (gather_rxqs pmds iso rxqs s)
      × AreGathered rxqs s (gather_rxqs pmds iso rxqs s)
unfolding gather_rxqs
gather_rxqs-IsGathered pmds before iso [] s g =
    (g, record { placed = λ test. omega arith; work_bound = omega arith })
gather_rxqs-IsGathered pmds before iso (rxq ∷ rxqs) (numas, rest) g =
    let (g', first) = gather_rxq-IsGathered pmds before numas iso rxq rest g in
    let (g'', later) =
      gather_rxqs-IsGathered pmds before iso rxqs (gather_rxq pmds iso rxq (numas, rest)) g' in
    (
      g'',
      record {
        placed = λ test. omega (arith, first.placed test, later.placed test);
        work_bound = omega (arith, first.work_bound, later.work_bound);
      },
    )
