-- ===== src/Ovs/Sched/Assign/Rounds.antt =====
-- The second loop of sched_numa_list_schedule: every queue goes to a thread that is not isolated,
-- as long as there is one.
use repath.Base.{
  ℕ, ◌+◌, ◌≤◌, ◌<◌, ◌≡◌, refl, sym, ◌∙◌, Bool, false, not, Option, none, some, List, [], ◌∷◌, ◌++◌,
  length, length-set, if◌then◌else◌, get_elem?, set, countp, countp-append, countp-cases, total,
  total-set, total-cases, total-get_elem?, All, All-set, All-get_elem?, arith, ◌⊎◌, inl, inr, ok,
  ◌==◌,
}
use mathlib.Core.List.{append-nil, append_assoc}
use repath.Ovs.Sched.{Rxq, SchedPmd, SchedNuma, AssignmentType}
use repath.Ovs.Sched.Pick.{uint64_max, sched_pmd_next}
use repath.Ovs.Sched.Pick.Walk.{IsMoved, Found}
use repath.Ovs.Sched.Pick.Next.{sched_pmd_next-Found}
use repath.Ovs.Sched.Assign.{Assigned, assign_in, assign_rxq, assign_rxqs}
use repath.Ovs.Sched.Assign.Sound.{
  IsSound, free_threads, polled_in, polled, work_of, work_in, work, weight, NumaKeepsApart,
}
use repath.Ovs.Sched.Assign.Numa.{IsLast, pick_numa-Picks}
use repath.Ovs.Sched.Assign.Queues.{
  given_to, given_to-polled, given_to-work, given_to-free, given_to-IsSound, given_to-apart,
}

IsLast-length :
    (numas numas' : List SchedNuma) (l : Option ℕ)
    → length numas ≡ length numas'
    → IsLast numas l
    → IsLast numas' l
unfolding IsLast
IsLast-length numas numas' none e h = tt
IsLast-length numas numas' (some i) e h = omega arith

-- What holds between two rounds.
pub record IsRunning (s : Assigned) : Type 0 where
  pub sound : All IsSound s.numas
  pub apart : All NumaKeepsApart s.numas
  pub last : IsLast s.numas s.last_cross_numa

-- A choice that has found a thread, with what follows from it.
assign_in-Found :
    (algo : AssignmentType) (rxq : Rxq) (s : Assigned) (i : ℕ) (numa : SchedNuma)
    → get_elem? s.numas i ≡ some numa
    → Found numa (sched_pmd_next numa algo (not (rxq.cycles == 0)))
    → (moved : SchedNuma) × (j : ℕ) × (p : SchedPmd) × (assign_in algo rxq (some i) s
        ≡ ok (record s { numas = set s.numas i (given_to moved j rxq) }))
      × (get_elem? numa.pmds j ≡ some p)
      × (p.isolated ≡ false)
      × IsMoved numa moved
unfolding Found given_to assign_in
assign_in-Found algo rxq s i numa at (moved, j, p, e, at_j, free, m) =
    (moved, j, p, rw at (rw e refl), at_j, free, m)

-- A node that offers a thread of whom the counters can hold more.
Offers-Found :
    (algo : AssignmentType) (has_proc : Bool) (numa : SchedNuma)
    → IsSound numa
    → 0 < free_threads numa
    → work_in numa < uint64_max
    → Found numa (sched_pmd_next numa algo has_proc)
Offers-Found algo has_proc numa s free less = elim (countp-cases (λ p. not p.isolated) numa.pmds) [
  | inl none_free ↦ absurd (omega arith)
  | inr (j, p, at, f) ↦
      sched_pmd_next-Found numa algo has_proc j p s.in_range at (ground (arith, f))
        (ground (arith, total-get_elem? work_of numa.pmds j at))
]

-- One round: the queue is at a thread more than before, or, if all threads are isolated, is noted
-- as not polled.
pub record IsRound (rxq : Rxq) (s t : Assigned) : Type 0 where
  pub running : IsRunning t
  pub free_as_before : total free_threads t.numas ≡ total free_threads s.numas
  pub work_bound : work t.numas ≤ work s.numas + weight rxq
  pub placed :
      (test : Rxq → Bool)
      → polled test t.numas + countp test t.unpolled
        ≡ polled test s.numas + countp test s.unpolled + (if test rxq then 1 else 0)
  pub polled_if_free :
      ((0 < total free_threads s.numas) × (t.unpolled ≡ s.unpolled))
      ⊎ ((total free_threads s.numas ≡ 0) × (t.unpolled ≡ s.unpolled ++ (rxq ∷ [])))

IsRound-unpolled :
    (rxq : Rxq) (s : Assigned) (l : Option ℕ)
    → IsRunning s
    → IsLast s.numas l
    → total free_threads s.numas ≡ 0
    → IsRound rxq s (record s { last_cross_numa = l; unpolled = s.unpolled ++ (rxq ∷ []) })
IsRound-unpolled rxq s l run last none_free = record {
  running = record { sound = run.sound; apart = run.apart; last = last };
  free_as_before = refl;
  work_bound = omega arith;
  placed = λ test. omega (arith, countp-append test s.unpolled (rxq ∷ []));
  polled_if_free = inr (none_free, refl);
}

module _ (rxq : Rxq) (s : Assigned) (i j : ℕ) (l : Option ℕ) (numa moved : SchedNuma)
    (p : SchedPmd) where
  abbrev handed : Assigned
  handed = record s { last_cross_numa = l; numas = set s.numas i (given_to moved j rxq) }

  IsRound-placed :
      IsRunning s
      → IsLast s.numas l
      → get_elem? s.numas i ≡ some numa
      → IsMoved numa moved
      → get_elem? numa.pmds j ≡ some p
      → p.isolated ≡ false
      → 0 < free_threads numa
      → IsRound rxq s handed
  IsRound-placed run last at m at_j free some_free =
      let sound =
        given_to-IsSound rxq numa moved j m at_j (All-get_elem? IsSound s.numas i run.sound at) in
      let apart =
        given_to-apart rxq numa moved j m at_j (inr free)
          (All-get_elem? NumaKeepsApart s.numas i run.apart at) in
      record {
        running = record {
          sound = All-set IsSound s.numas i (given_to moved j rxq) sound run.sound;
          apart = All-set NumaKeepsApart s.numas i (given_to moved j rxq) apart run.apart;
          last = IsLast-length s.numas _ l (sym (length-set s.numas i (given_to moved j rxq))) last;
        };
        free_as_before = omega (
          arith,
          total-set free_threads s.numas i (given_to moved j rxq) at,
          given_to-free rxq numa moved j m at_j,
        );
        work_bound = omega (
          arith,
          total-set work_in s.numas i (given_to moved j rxq) at,
          given_to-work rxq numa moved j m at_j,
        );
        placed = λ test. omega (
          arith,
          total-set (polled_in test) s.numas i (given_to moved j rxq) at,
          given_to-polled rxq numa moved j m at_j test,
        );
        polled_if_free = inl (omega (arith, total-get_elem? free_threads s.numas i at), refl);
      }

assign_rxq-IsRound :
    (algo : AssignmentType) (rxq : Rxq) (s : Assigned)
    → IsRunning s
    → work s.numas < uint64_max
    → (t : Assigned) × (assign_rxq algo rxq s ≡ ok t) × IsRound rxq s t
unfolding assign_rxq
assign_rxq-IsRound algo rxq s run bound =
    elim (pick_numa-Picks s.numas s.last_cross_numa rxq.netdev_numa_id run.sound run.last) [
      | inl (l, e, last, none_free) ↦ (
        record s { last_cross_numa = l; unpolled = s.unpolled ++ (rxq ∷ []) },
        rw e (unfold assign_in in refl),
        IsRound-unpolled rxq s l run last none_free,
      )
      | inr (i, l, e, last, (numa, at, free)) ↦
          let sound = All-get_elem? IsSound s.numas i run.sound at in
          let less : work_in numa < uint64_max =
            omega (arith, total-get_elem? work_in s.numas i at) in
          let (moved, j, p, e', at_j, free_j, m) =
            assign_in-Found algo rxq (record s { last_cross_numa = l }) i numa at
              (Offers-Found algo (not (rxq.cycles == 0)) numa sound free less) in
          (
            handed rxq s i j l numa moved p,
            rw e e',
            IsRound-placed rxq s i j l numa moved p run last at m at_j free_j free,
          )
    ]

-- The whole loop.
pub record AreRounds (rxqs : List Rxq) (s t : Assigned) : Type 0 where
  pub running : IsRunning t
  pub free_as_before : total free_threads t.numas ≡ total free_threads s.numas
  pub placed :
      (test : Rxq → Bool)
      → polled test t.numas + countp test t.unpolled
        ≡ polled test s.numas + countp test s.unpolled + countp test rxqs
  pub polled_if_free :
      ((0 < total free_threads s.numas) × (t.unpolled ≡ s.unpolled))
      ⊎ ((total free_threads s.numas ≡ 0) × (t.unpolled ≡ s.unpolled ++ rxqs))

AreRounds-done : (s : Assigned) → IsRunning s → AreRounds [] s s
AreRounds-done s run = record {
  running = run;
  free_as_before = refl;
  placed = λ test. omega arith;
  polled_if_free = elim (total-cases free_threads s.numas) [
    | inl none_free ↦ inr (none_free, sym (append-nil s.unpolled))
    | inr (i, numa, at, h) ↦ inl (omega (arith, total-get_elem? free_threads s.numas i at), refl)
  ];
}

AreRounds-next :
    (rxq : Rxq) (rxqs : List Rxq) (s t u : Assigned)
    → IsRound rxq s t
    → AreRounds rxqs t u
    → AreRounds (rxq ∷ rxqs) s u
AreRounds-next rxq rxqs s t u first rest = record {
  running = rest.running;
  free_as_before = rest.free_as_before ∙ first.free_as_before;
  placed = λ test. omega (arith, first.placed test, rest.placed test);
  polled_if_free = both first.polled_if_free rest.polled_if_free;
}
  where
    both :
        ((0 < total free_threads s.numas) × (t.unpolled ≡ s.unpolled))
          ⊎ ((total free_threads s.numas ≡ 0) × (t.unpolled ≡ s.unpolled ++ (rxq ∷ [])))
        → ((0 < total free_threads t.numas) × (u.unpolled ≡ t.unpolled))
          ⊎ ((total free_threads t.numas ≡ 0) × (u.unpolled ≡ t.unpolled ++ rxqs))
        → ((0 < total free_threads s.numas) × (u.unpolled ≡ s.unpolled))
          ⊎ ((total free_threads s.numas ≡ 0) × (u.unpolled ≡ s.unpolled ++ (rxq ∷ rxqs)))
    both (inl (h, e)) (inl (h', e')) = inl (h, e' ∙ e)
    both (inl (h, e)) (inr (h', e')) = absurd (omega (arith, first.free_as_before))
    both (inr (h, e)) (inl (h', e')) = absurd (omega (arith, first.free_as_before))
    both (inr (h, e)) (inr (h', e')) = inr (h, rw (e', e) (append_assoc s.unpolled (rxq ∷ []) rxqs))

-- As long as the counters can hold all there is to do, the loop ends without a fault.
pub assign_rxqs-AreRounds :
    (algo : AssignmentType) (rxqs : List Rxq) (s : Assigned)
    → IsRunning s
    → work s.numas + total weight rxqs < uint64_max
    → (t : Assigned) × (assign_rxqs algo rxqs s ≡ ok t) × AreRounds rxqs s t
unfolding assign_rxqs
assign_rxqs-AreRounds algo [] s run bound = (s, refl, AreRounds-done s run)
assign_rxqs-AreRounds algo (rxq ∷ rxqs) s run bound =
    let (t, e, first) = assign_rxq-IsRound algo rxq s run (omega arith) in
    let (u, e', rest) =
      assign_rxqs-AreRounds algo rxqs t first.running (omega (arith, first.work_bound)) in
    (u, rw e e', AreRounds-next rxq rxqs s t u first rest)
