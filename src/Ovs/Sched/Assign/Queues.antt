-- ===== src/Ovs/Sched/Assign/Queues.antt =====
-- A queue that is handed to a thread: what becomes of the node of the thread.
use repath.Base.{
  ℕ, ◌+◌, ◌≤◌, ◌≡◌, sym, Bool, false, not, some, List, [], ◌∷◌, length, length-append,
  if◌then◌else◌, get_elem?, countp, countp-append, countp-modify, total, total-modify, All,
  All-append, All-modify, length-modify, modify, arith, ◌⊎◌, ap, ◌∙◌,
}
use mathlib.Core.Path.{subst}
use repath.Ovs.Sched.{Rxq, SchedPmd, SchedNuma}
use repath.Ovs.Sched.Pick.Walk.{IsMoved}
use repath.Ovs.Sched.Assign.{sched_pmd_add_rxq}
use repath.Ovs.Sched.Assign.Sound.{
  IsSound, free_threads, polled_by, polled_in, work_of, work_in, weight, KeepsApart, NumaKeepsApart,
}

-- The queue may stand on the thread: it is pinned to its core, or the thread is not isolated.
abbrev pub Fits : Rxq → SchedPmd → Type 0
Fits rxq p = (rxq.core_id ≡ some p.pmd.core_id) ⊎ (p.isolated ≡ false)

-- The threads of a node, of which the one at the index `j` is given the queue.
module _ (rxq : Rxq) (pmds : List SchedPmd) (j : ℕ) {p : SchedPmd}
    (at : get_elem? pmds j ≡ some p) where
  abbrev given : List SchedPmd
  given = modify pmds j (sched_pmd_add_rxq rxq rxq.cycles)

  given-polled :
      (test : Rxq → Bool)
      → total (polled_by test) given ≡ total (polled_by test) pmds + (if test rxq then 1 else 0)
  unfolding sched_pmd_add_rxq
  given-polled test = omega (
    arith,
    total-modify (polled_by test) pmds j (sched_pmd_add_rxq rxq rxq.cycles) at,
    countp-append test p.rxqs (rxq ∷ []),
  )

  given-work : total work_of given ≤ total work_of pmds + weight rxq
  unfolding sched_pmd_add_rxq
  given-work = omega (
    arith,
    total-modify work_of pmds j (sched_pmd_add_rxq rxq rxq.cycles) at,
    length-append p.rxqs (rxq ∷ []),
  )

  given-isolated : countp (λ q. q.isolated) given ≡ countp (λ q. q.isolated) pmds
  unfolding sched_pmd_add_rxq
  given-isolated =
      omega (arith, countp-modify (λ q. q.isolated) pmds j (sched_pmd_add_rxq rxq rxq.cycles) at)

  given-free : countp (λ q. not q.isolated) given ≡ countp (λ q. not q.isolated) pmds
  unfolding sched_pmd_add_rxq
  given-free =
      omega
        (arith, countp-modify (λ q. not q.isolated) pmds j (sched_pmd_add_rxq rxq rxq.cycles) at)

  given-apart : Fits rxq p → All KeepsApart pmds → All KeepsApart given
  unfolding sched_pmd_add_rxq
  given-apart fits apart =
      All-modify pmds j (sched_pmd_add_rxq rxq rxq.cycles)
        (λ q at_q h.
          let same : p ≡ q = cc in
          All-append (λ r. Fits r q) q.rxqs (rxq ∷ []) h (subst (Fits rxq) same fits, tt))
        apart

-- A node after a choice, of which the chosen thread has been given the queue.
unfoldable pub given_to : SchedNuma → ℕ → Rxq → SchedNuma
given_to moved j rxq = record moved {
  pmds = modify moved.pmds j (sched_pmd_add_rxq rxq rxq.cycles);
}

module _ (rxq : Rxq) (numa moved : SchedNuma) (j : ℕ) {p : SchedPmd} where
  module _ (m : IsMoved numa moved) (at : get_elem? numa.pmds j ≡ some p) where
    given_to-moved : get_elem? moved.pmds j ≡ some p
    given_to-moved = subst (λ pmds. get_elem? pmds j ≡ some p) (sym m.same_pmds) at

    pub given_to-polled :
        (test : Rxq → Bool)
        → polled_in test (given_to moved j rxq) ≡ polled_in test numa + (if test rxq then 1 else 0)
    unfolding given_to
    given_to-polled test =
        given-polled rxq moved.pmds j given_to-moved test
        ∙ ap (λ pmds. total (polled_by test) pmds + (if test rxq then 1 else 0)) m.same_pmds

    pub given_to-work : work_in (given_to moved j rxq) ≤ work_in numa + weight rxq
    unfolding given_to
    given_to-work = omega (
      arith,
      given-work rxq moved.pmds j given_to-moved,
      ap (λ pmds. total work_of pmds) m.same_pmds,
    )

    pub given_to-free : free_threads (given_to moved j rxq) ≡ free_threads numa
    unfolding given_to
    given_to-free =
        given-free rxq moved.pmds j given_to-moved
        ∙ ap (λ pmds. countp (λ q. not q.isolated) pmds) m.same_pmds

    pub given_to-IsSound : IsSound numa → IsSound (given_to moved j rxq)
    unfolding given_to
    given_to-IsSound s = record {
      in_range = omega (
        arith,
        m.in_range,
        length-modify moved.pmds j (sched_pmd_add_rxq rxq rxq.cycles),
        ap (λ pmds. length pmds) m.same_pmds,
      );
      counted = omega (
        arith,
        s.counted,
        m.same_isolated,
        given-isolated rxq moved.pmds j given_to-moved,
        ap (λ pmds. countp (λ q. q.isolated) pmds) m.same_pmds,
      );
    }

    pub given_to-apart : Fits rxq p → NumaKeepsApart numa → NumaKeepsApart (given_to moved j rxq)
    unfolding given_to
    given_to-apart fits apart =
        given-apart rxq moved.pmds j given_to-moved fits
          (subst (All KeepsApart) (sym m.same_pmds) apart)
