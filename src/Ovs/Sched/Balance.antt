-- ===== src/Ovs/Sched/Balance.antt =====
-- Whether queues should be handed out anew, in dpif-netdev.c: sched_numa_list_assignments,
-- sched_numa_list_cross_numa_polling, sched_numa_list_variance with variance,
-- pmd_rebalance_dry_run_needed and pmd_rebalance_dry_run.
pub mod Variance
pub mod Needed
use repath.Base.{
  ℕ, zero, suc, ◌+◌, ◌-◌, ◌*◌, ◌/◌, ◌≡◌, Bool, true, false, not, ◌&&◌, ◌||◌, Option, none, some,
  List, [], ◌∷◌, ◌++◌, length, ltb, leb, ◌==◌, if◌then◌else◌, modify, add64, sub64, mul64, Result,
  ok, and_then, ◌>>=◌, ◌>>◌, deref, defined,
}
use repath.Ovs.Sched.{
  PmdThread, Rxq, NetdevPort, AssignmentType, sched_roundrobin, sched_cycles, sched_group,
  PmdAutoLb, Datapath, SchedPmd, SchedNuma, sched_numa_list_populate,
}
use repath.Ovs.Sched.Assign.{
  sum_intrvls, store_port, pmd_rxqs, sched_pmd_find_by_pmd, sched_pmd_add_rxq, Assigned,
  sched_numa_list_schedule,
}
use repath.Ovs.Sched.Reconfigure.{with_hist}

-- The thread of a core, to follow rxq->pmd.
pub thread_of : List PmdThread → ℕ → Option PmdThread
thread_of [] core = none
thread_of (pmd ∷ pmds) core = if pmd.core_id == core then some pmd else thread_of pmds core

pub assign_current : Bool → Rxq → SchedPmd → SchedPmd
unfolding sched_pmd_add_rxq sum_intrvls
assign_current iso rxq p =
    sched_pmd_add_rxq rxq (sum_intrvls 0 rxq.cycles_intrvl)
      (elim rxq.core_id [ none ↦ p | some core ↦ if iso then record p { isolated = true } else p ])

assign_to : Bool → Rxq → ℕ → SchedNuma → SchedNuma
unfolding assign_current
assign_to iso rxq j numa = record numa { pmds = modify numa.pmds j (assign_current iso rxq) }

place_current : Bool → Rxq → Option (ℕ × ℕ) → List SchedNuma → List SchedNuma
unfolding assign_to
place_current iso rxq none numas = numas
place_current iso rxq (some (i, j)) numas = modify numas i (assign_to iso rxq j)

current_place : List PmdThread → Rxq → List SchedNuma → Option (ℕ × ℕ)
unfolding thread_of sched_pmd_find_by_pmd
current_place pmds rxq numas = elim rxq.pmd [
  | none ↦ none
  | some core ↦ elim (thread_of pmds core) [
    | none ↦ none
    | some pmd ↦ sched_pmd_find_by_pmd numas pmd
  ]
]

pub sched_numa_list_assignments : List PmdThread → Bool → List Rxq → List SchedNuma → List SchedNuma
unfolding place_current current_place
sched_numa_list_assignments pmds iso [] numas = numas
sched_numa_list_assignments pmds iso (rxq ∷ rxqs) numas =
    sched_numa_list_assignments pmds iso rxqs
      (place_current iso rxq (current_place pmds rxq numas) numas)

-- Of an unpinned queue the function follows rxq->pmd, the thread that polls it now, also where the
-- list is an estimate.
pub polled_afar : List PmdThread → Rxq → Result Bool
unfolding thread_of
polled_afar pmds rxq = elim rxq.core_id [
  | some pinned ↦ ok false
  | none ↦ do
    core ← deref rxq.pmd
    pmd ← deref (thread_of pmds core)
    ok (not (pmd.numa_id == rxq.netdev_numa_id))
]

any_afar : List PmdThread → List Rxq → Result Bool
unfolding polled_afar
any_afar pmds [] = ok false
any_afar pmds (rxq ∷ rxqs) = do
  afar ← polled_afar pmds rxq
  elim afar [ true ↦ ok true | false ↦ any_afar pmds rxqs ]

any_pmd_afar : List PmdThread → List SchedPmd → Result Bool
unfolding any_afar
any_pmd_afar pmds [] = ok false
any_pmd_afar pmds (p ∷ ps) = do
  afar ← if p.isolated then ok false else any_afar pmds p.rxqs
  elim afar [ true ↦ ok true | false ↦ any_pmd_afar pmds ps ]

pub sched_numa_list_cross_numa_polling : List PmdThread → List SchedNuma → Result Bool
unfolding any_pmd_afar
sched_numa_list_cross_numa_polling pmds [] = ok false
sched_numa_list_cross_numa_polling pmds (numa ∷ numas) = do
  afar ← any_pmd_afar pmds numa.pmds
  elim afar [ true ↦ ok true | false ↦ sched_numa_list_cross_numa_polling pmds numas ]

-- variance(): `n` is the number of values.
pub sum_from : ℕ → List ℕ → ℕ
sum_from sum [] = sum
sum_from sum (a ∷ rest) = sum_from (add64 sum a) rest

pub sq_diff_from : ℕ → ℕ → List ℕ → ℕ
sq_diff_from mean sq [] = sq
sq_diff_from mean sq (a ∷ rest) =
    sq_diff_from mean (add64 sq (mul64 (sub64 a mean) (sub64 a mean))) rest

pub variance : List ℕ → ℕ
unfolding sum_from sq_diff_from
variance [] = 0
variance (a ∷ rest) =
    let values = a ∷ rest in
    let sum = sum_from 0 values in
    let sq = if sum == 0 then 0 else sq_diff_from (sum / length values) 0 values in
    if sq == 0 then 0 else sq / length values

-- PMD_INTERVAL_MAX
abbrev pub pmd_interval_max : ℕ
pmd_interval_max = 6

-- The divisor is the product, which may have wrapped to 0.
pub percent_busy : SchedPmd → Result ℕ
percent_busy p =
    if p.pmd.intrvl_cycles == 0
    then ok 0
    else defined (not (mul64 p.pmd.intrvl_cycles pmd_interval_max == 0))
      >> ok (mul64 p.pmd_proc_cycles 100 / mul64 p.pmd.intrvl_cycles pmd_interval_max)

pub busy_pmds : List SchedPmd → Result (List ℕ)
unfolding percent_busy
busy_pmds [] = ok []
busy_pmds (p ∷ ps) = elim p.isolated [
  | true ↦ busy_pmds ps
  | false ↦ do percent ← percent_busy p; others ← busy_pmds ps; ok (percent ∷ others)
]

pub busy_numas : List SchedNuma → Result (List ℕ)
unfolding busy_pmds
busy_numas [] = ok []
busy_numas (numa ∷ numas) = do
  percents ← busy_pmds numa.pmds
  others ← busy_numas numas
  ok (percents ++ others)

pub sched_numa_list_variance : List SchedNuma → Result ℕ
unfolding variance busy_numas
sched_numa_list_variance numas = do percents ← busy_numas numas; ok (variance percents)

-- The loop of pmd_rebalance_dry_run_needed.
pub enough_work : ℕ → Bool → List PmdThread → Bool
enough_work cnt multi_rxq [] = false
enough_work cnt multi_rxq (pmd ∷ pmds) =
    let skip = enough_work cnt multi_rxq pmds in
    let multi = ltb 1 (length pmd.poll_list) || multi_rxq in
    let rest = enough_work (suc cnt) multi pmds in
    if pmd.is_non_pmd || pmd.isolated then skip else if ltb 0 cnt && multi then true else rest

abbrev pub is_roundrobin : AssignmentType → Bool
is_roundrobin sched_roundrobin = true
is_roundrobin sched_cycles = false
is_roundrobin sched_group = false

-- The answer is do_dry_run of the new state.
pub pmd_rebalance_dry_run_needed : Datapath → PmdAutoLb
unfolding enough_work
pmd_rebalance_dry_run_needed dp =
    if dp.pmd_alb.recheck_config
    then record dp.pmd_alb {
      recheck_config = false;
      do_dry_run =
          not (is_roundrobin dp.pmd_rxq_assign_type) && enough_work 0 false dp.poll_threads;
    }
    else dp.pmd_alb

pub improvement : ℕ → ℕ → ℕ
improvement current estimate =
    if ltb estimate current then mul64 (sub64 current estimate) 100 / current else 0

pub variance_improves : ℕ → List SchedNuma → List SchedNuma → Result Bool
unfolding sched_numa_list_variance improvement
variance_improves thresh cur est = do
  current ← sched_numa_list_variance cur
  estimate ← sched_numa_list_variance est
  ok (leb thresh (improvement current estimate))

worth_a_look : Bool → ℕ → List SchedNuma → List SchedNuma → Result Bool
unfolding variance_improves
worth_a_look false thresh cur est = ok false
worth_a_look true thresh cur est = variance_improves thresh cur est

pub pmd_rebalance_dry_run :
    (SchedNuma → List SchedNuma → List SchedNuma) → Datapath → Result (Datapath × Bool)
unfolding sched_numa_list_assignments with_hist pmd_rxqs sched_numa_list_schedule
    sched_numa_list_cross_numa_polling worth_a_look
pmd_rebalance_dry_run hmap_insert dp = do
  let fresh = sched_numa_list_populate hmap_insert dp.poll_threads
  let cur = sched_numa_list_assignments dp.poll_threads dp.pmd_iso (pmd_rxqs dp.ports) fresh
  t ←
      sched_numa_list_schedule dp.poll_threads dp.pmd_iso dp.pmd_rxq_assign_type
        (pmd_rxqs (with_hist dp).ports) fresh
  afar ← sched_numa_list_cross_numa_polling dp.poll_threads t.numas
  met ←
      worth_a_look (not afar || length t.numas == 1) dp.pmd_alb.rebalance_improve_thresh cur t.numas
  ok (with_hist dp, met)
