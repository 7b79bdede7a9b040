-- ===== src/Ovs/Sched/Assign/Whole.antt =====
-- sched_numa_list_schedule as a whole.
use repath.Base.{
  ℕ, ◌+◌, ◌<◌, ◌≡◌, refl, sym, ap, ◌∙◌, Bool, false, none, some, List, [], ◌∷◌, length, ltb, countp,
  total, All, arith, ◌⊎◌, inl, inr, Bool-cases, ok,
}
use mathlib.Core.Path.{subst}
use repath.Ovs.Sched.{
  PmdThread, Rxq, AssignmentType, sched_roundrobin, sched_cycles, sched_group, SchedPmd, SchedNuma,
  qsort, sched_numa_list_populate, IsHmap,
}
use repath.Ovs.Sched.Sorting.{total-qsort, countp-qsort, All-qsort, Descends, Descends-qsort}
use repath.Ovs.Sched.Fresh.{IsFresh, populate-IsFresh}
use repath.Ovs.Sched.Pick.{uint64_max}
use repath.Ovs.Sched.Assign.{
  Assigned, compare_rxq_cycles, sort_rxqs, pinned_place, gather_rxqs, sched_numa_list_schedule,
}
use repath.Ovs.Sched.Assign.Sound.{free_threads, polled, weight, KeepsApart, NumaKeepsApart}
use repath.Ovs.Sched.Assign.Numa.{IsLast}
use repath.Ovs.Sched.Assign.Begin.{IsFresh-polled, IsFresh-work, IsFresh-IsSound, IsFresh-HasPinned}
use repath.Ovs.Sched.Assign.Pinning.{HasPinned, NumaHasPinned}
use repath.Ovs.Sched.Assign.Gather.{IsGathered, gather_rxqs-IsGathered}
use repath.Ovs.Sched.Assign.Rounds.{IsRunning, assign_rxqs-AreRounds}

-- Sorting keeps the queues.
sort_rxqs-cases :
    (algo : AssignmentType) (rxqs : List Rxq)
    → (sort_rxqs algo rxqs ≡ rxqs) ⊎ (sort_rxqs algo rxqs ≡ qsort compare_rxq_cycles rxqs)
unfolding sort_rxqs
sort_rxqs-cases sched_roundrobin rxqs = inl refl
sort_rxqs-cases sched_cycles rxqs = elim (Bool-cases (ltb 1 (length rxqs))) [
  | inl e ↦ inr (rw e refl)
  | inr e ↦ inl (rw e refl)
]
sort_rxqs-cases sched_group rxqs = elim (Bool-cases (ltb 1 (length rxqs))) [
  | inl e ↦ inr (rw e refl)
  | inr e ↦ inl (rw e refl)
]

module _ (algo : AssignmentType) (rxqs : List Rxq) where
  countp-sort_rxqs : (test : Rxq → Bool) → countp test (sort_rxqs algo rxqs) ≡ countp test rxqs
  countp-sort_rxqs test = elim (sort_rxqs-cases algo rxqs) [
    | inl e ↦ ap (countp test) e
    | inr e ↦ ap (countp test) e ∙ countp-qsort compare_rxq_cycles test rxqs
  ]

  total-sort_rxqs : (g : Rxq → ℕ) → total g (sort_rxqs algo rxqs) ≡ total g rxqs
  total-sort_rxqs g = elim (sort_rxqs-cases algo rxqs) [
    | inl e ↦ ap (total g) e
    | inr e ↦ ap (total g) e ∙ total-qsort compare_rxq_cycles g rxqs
  ]

  All-sort_rxqs : (P : Rxq → Type 0) → All P rxqs → All P (sort_rxqs algo rxqs)
  All-sort_rxqs P all = elim (sort_rxqs-cases algo rxqs) [
    | inl e ↦ subst (All P) (sym e) all
    | inr e ↦ subst (All P) (sym e) (All-qsort compare_rxq_cycles P rxqs all)
  ]

-- The queues are handed out from the busiest to the idlest.
pub sort_rxqs-Descends :
    (rxqs : List Rxq)
    → Descends compare_rxq_cycles (λ rxq. rxq.cycles) (qsort compare_rxq_cycles rxqs)
sort_rxqs-Descends rxqs =
    Descends-qsort compare_rxq_cycles (λ rxq. rxq.cycles)
      (λ a b e. unfold compare_rxq_cycles in ground (arith, e))
      (λ a b e. unfold compare_rxq_cycles in ground (arith, e)) rxqs

keeps_apart : (pmds : List SchedPmd) → All HasPinned pmds → All KeepsApart pmds
keeps_apart [] all = tt
keeps_apart (p ∷ pmds) all = (queues p.rxqs all.0, keeps_apart pmds all.1)
  where
    queues :
        (rxqs : List Rxq)
        → All (λ rxq. rxq.core_id ≡ some p.pmd.core_id) rxqs
        → All (λ rxq. (rxq.core_id ≡ some p.pmd.core_id) ⊎ (p.isolated ≡ false)) rxqs
    queues [] h = tt
    queues (rxq ∷ rxqs) h = (inl h.0, queues rxqs h.1)

numas_keep_apart : (numas : List SchedNuma) → All NumaHasPinned numas → All NumaKeepsApart numas
numas_keep_apart [] all = tt
numas_keep_apart (numa ∷ numas) all = (keeps_apart numa.pmds all.0, numas_keep_apart numas all.1)

-- What the assignment comes to.
pub record IsSchedule (pmds : List PmdThread) (before : List SchedNuma) (rxqs : List Rxq)
    (t : Assigned) : Type 0 where
  pub placed : (test : Rxq → Bool) → polled test t.numas + countp test t.unpolled ≡ countp test rxqs
  pub apart : All NumaKeepsApart t.numas
  pub polled_if_free :
      (t.unpolled ≡ [])
      ⊎ ((total free_threads t.numas ≡ 0)
          × All (λ rxq. pinned_place pmds before rxq.core_id ≡ none) t.unpolled)

module _ (pmds : List PmdThread) (iso : Bool) (algo : AssignmentType) (rxqs : List Rxq) where
  IsFresh-IsSchedule :
      (numas : List SchedNuma)
      → All IsFresh numas
      → total weight rxqs < uint64_max
      → (t : Assigned) × (sched_numa_list_schedule pmds iso algo rxqs numas ≡ ok t)
        × IsSchedule pmds numas rxqs t
  unfolding sched_numa_list_schedule
  IsFresh-IsSchedule numas fresh bound =
      let g : IsGathered pmds numas (numas, []) = record {
        sound = IsFresh-IsSound numas fresh;
        pinned = IsFresh-HasPinned numas fresh;
        stable = λ core. refl;
        left = tt;
      } in
      let (g', gathered) = gather_rxqs-IsGathered pmds numas iso rxqs (numas, []) g in
      let pinned = (gather_rxqs pmds iso rxqs (numas, [])).0 in
      let rest = (gather_rxqs pmds iso rxqs (numas, [])).1 in
      let run : IsRunning (record { numas = pinned; last_cross_numa = none; unpolled = [] }) =
        record {
          sound = g'.sound;
          apart = numas_keep_apart pinned g'.pinned;
          last = unfold IsLast in tt;
        } in
      let (t, e, rounds) = assign_rxqs-AreRounds algo (sort_rxqs algo rest) _ run (
        omega (
          arith,
          gathered.work_bound,
          IsFresh-work numas fresh,
          total-sort_rxqs algo rest weight,
        )) in
      (
        t,
        e,
        record {
          placed = λ test. omega (
            arith,
            rounds.placed test,
            gathered.placed test,
            IsFresh-polled test numas fresh,
            countp-sort_rxqs algo rest test,
          );
          apart = rounds.running.apart;
          polled_if_free = elim rounds.polled_if_free [
            | inl (h, e') ↦ inl e'
            | inr (none_free, e') ↦ inr (
              rounds.free_as_before ∙ none_free,
              subst (All (λ rxq. pinned_place pmds numas rxq.core_id ≡ none)) (sym e') (
                  All-sort_rxqs algo rest (λ rxq. pinned_place pmds numas rxq.core_id ≡ none)
                    g'.left),
            )
          ];
        },
      )

  -- Over the threads of a datapath, with queues whose cycles and number fit in the counters, the
  -- assignment returns: every queue stands at one thread, or is noted as not polled, as often as it
  -- was given; a queue on an isolated thread is pinned to its core; and queues are not polled only
  -- if all threads are isolated, and then only those that no thread has the core of.
  pub sched_numa_list_schedule-IsSchedule :
      (hmap_insert : SchedNuma → List SchedNuma → List SchedNuma)
      → IsHmap hmap_insert
      → total weight rxqs < uint64_max
      → (t : Assigned) × (sched_numa_list_schedule pmds iso algo rxqs
            (sched_numa_list_populate hmap_insert pmds)
          ≡ ok t)
        × IsSchedule pmds (sched_numa_list_populate hmap_insert pmds) rxqs t
  sched_numa_list_schedule-IsSchedule hmap_insert hmap bound =
      IsFresh-IsSchedule (sched_numa_list_populate hmap_insert pmds)
        (populate-IsFresh hmap_insert hmap pmds) bound
