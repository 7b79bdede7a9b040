-- ===== src/Ovs/Sched/Assign.antt =====
-- How receive queues are handed to threads: sched_numa_list_schedule, sched_numa_list_put_in_place
-- and rxq_scheduling of dpif-netdev.c. The warning that a queue will not be polled is the list
-- `unpolled`; other output is left out.
pub mod Sound
pub mod Pinning
pub mod Gather
pub mod Numa
pub mod Queues
pub mod Rounds
pub mod Begin
pub mod Whole
use repath.Base.{
  ℕ, zero, suc, ◌+◌, ◌≡◌, Bool, true, false, not, ◌&&◌, Option, none, some, List, [], ◌∷◌, ◌++◌,
  map, length, ltb, ◌==◌, if◌then◌else◌, get_elem?, set, modify, add64, ℤ, pos, negsuc, Result, ok,
  deref, and_then, ◌>>=◌,
}
use repath.Ovs.Sched.{
  PmdThread, Rxq, NetdevPort, AssignmentType, sched_roundrobin, sched_cycles, sched_group, Datapath,
  SchedPmd, SchedNuma, qsort, sub_int, sched_numa_list_lookup, sched_numa_list_populate,
}
use repath.Ovs.Sched.Pick.{sched_numa_noniso_pmd_count, sched_pmd_next}

-- The cycles of all intervals of a queue.
unfoldable pub sum_intrvls : ℕ → List ℕ → ℕ
sum_intrvls sum [] = sum
sum_intrvls sum (c ∷ cycles) = sum_intrvls (add64 sum c) cycles

unfoldable pub store_hist : AssignmentType → Rxq → Rxq
unfolding sum_intrvls
store_hist sched_roundrobin rxq = rxq
store_hist sched_cycles rxq = record rxq { cycles = sum_intrvls 0 rxq.cycles_intrvl }
store_hist sched_group rxq = record rxq { cycles = sum_intrvls 0 rxq.cycles_intrvl }

unfoldable pub store_port : AssignmentType → NetdevPort → NetdevPort
unfolding store_hist
store_port algo port =
    if port.is_pmd then record port { rxqs = map (store_hist algo) port.rxqs } else port

-- The queues of the ports that threads poll.
unfoldable pub pmd_rxqs : List NetdevPort → List Rxq
pmd_rxqs [] = []
pmd_rxqs (port ∷ ports) = if port.is_pmd then port.rxqs ++ pmd_rxqs ports else pmd_rxqs ports

unfoldable pub dp_netdev_get_pmd : List PmdThread → ℕ → Option PmdThread
dp_netdev_get_pmd [] core = none
dp_netdev_get_pmd (pmd ∷ pmds) core =
    if pmd.core_id == core
    then if pmd.can_ref then some pmd else none
    else dp_netdev_get_pmd pmds core

-- The indices of a node and of a thread of it.
pub find_in_numa : List SchedPmd → ℕ → Option ℕ
find_in_numa [] core = none
find_in_numa (p ∷ pmds) core =
    let rest = find_in_numa pmds core in
    if p.pmd.core_id == core then some 0 else elim rest [ none ↦ none | some j ↦ some (suc j) ]

unfoldable pub sched_pmd_find_by_pmd : List SchedNuma → PmdThread → Option (ℕ × ℕ)
unfolding find_in_numa
sched_pmd_find_by_pmd [] pmd = none
sched_pmd_find_by_pmd (numa ∷ numas) pmd =
    let rest = sched_pmd_find_by_pmd numas pmd in
    elim (find_in_numa numa.pmds pmd.core_id) [
      | some j ↦ some (0, j)
      | none ↦ elim rest [ none ↦ none | some (i, j) ↦ some (suc i, j) ]
    ]

unfoldable pub sched_pmd_add_rxq : Rxq → ℕ → SchedPmd → SchedPmd
sched_pmd_add_rxq rxq cycles p = record p {
  rxqs = p.rxqs ++ (rxq ∷ []);
  pmd_proc_cycles = add64 p.pmd_proc_cycles cycles;
}

-- The thread of a pinned queue, and the node of the thread.
pub pin_pmd : Bool → Rxq → SchedPmd → SchedPmd
unfolding sched_pmd_add_rxq
pin_pmd iso rxq p =
    sched_pmd_add_rxq rxq rxq.cycles (if iso then record p { isolated = true } else p)

pub newly_isolated : Bool → Option SchedPmd → ℕ
newly_isolated iso none = 0
newly_isolated iso (some p) = if iso && not p.isolated then 1 else 0

pub pin_numa : Bool → Rxq → ℕ → SchedNuma → SchedNuma
unfolding pin_pmd newly_isolated
pin_numa iso rxq j numa = record numa {
  pmds = modify numa.pmds j (pin_pmd iso rxq);
  n_isolated = numa.n_isolated + newly_isolated iso (get_elem? numa.pmds j);
}

-- Where the thread of a queue's core is, if the queue is pinned and there is such a thread.
pub pinned_place : List PmdThread → List SchedNuma → Option ℕ → Option (ℕ × ℕ)
unfolding dp_netdev_get_pmd sched_pmd_find_by_pmd
pinned_place pmds numas none = none
pinned_place pmds numas (some core) = elim (dp_netdev_get_pmd pmds core) [
  | none ↦ none
  | some pmd ↦ sched_pmd_find_by_pmd numas pmd
]

-- The first loop: pinned queues go to their threads, the others are collected.
pub gather_rxq : List PmdThread → Bool → Rxq → List SchedNuma × List Rxq → List SchedNuma × List Rxq
unfolding pinned_place pin_numa
gather_rxq pmds iso rxq (numas, rxqs) = elim (pinned_place pmds numas rxq.core_id) [
  | none ↦ (numas, rxqs ++ (rxq ∷ []))
  | some (i, j) ↦ (modify numas i (pin_numa iso rxq j), rxqs)
]

pub gather_rxqs :
    List PmdThread → Bool → List Rxq → List SchedNuma × List Rxq → List SchedNuma × List Rxq
unfolding gather_rxq
gather_rxqs pmds iso [] s = s
gather_rxqs pmds iso (rxq ∷ rest) s = gather_rxqs pmds iso rest (gather_rxq pmds iso rxq s)

unfoldable pub compare_rxq_cycles : Rxq → Rxq → ℤ
compare_rxq_cycles a b =
    if not (a.cycles == b.cycles)
    then if ltb a.cycles b.cycles then pos 1 else negsuc 0
    else if not (a.port_no == b.port_no)
    then if ltb b.port_no a.port_no then pos 1 else negsuc 0
    else sub_int a.queue_id b.queue_id

pub sort_rxqs : AssignmentType → List Rxq → List Rxq
unfolding qsort compare_rxq_cycles
sort_rxqs sched_roundrobin rxqs = rxqs
sort_rxqs sched_cycles rxqs = if ltb 1 (length rxqs) then qsort compare_rxq_cycles rxqs else rxqs
sort_rxqs sched_group rxqs = if ltb 1 (length rxqs) then qsort compare_rxq_cycles rxqs else rxqs

-- The index of the node behind another one, of the first where there is none.
pub sched_numa_list_next : List SchedNuma → Option ℕ → ℕ
sched_numa_list_next numas none = 0
sched_numa_list_next numas (some i) = if ltb (i + 1) (length numas) then i + 1 else 0

-- Whether the node at an index has a thread that is not isolated.
pub usable : List SchedNuma → ℕ → Bool
unfolding sched_numa_noniso_pmd_count
usable numas i = elim (get_elem? numas i) [
  | none ↦ false
  | some numa ↦ ltb 0 (sched_numa_noniso_pmd_count numa)
]

-- The search of another node, with the rounds that are left: the node, and last_cross_numa.
pub cross_numa : List SchedNuma → ℕ → Option ℕ → Option ℕ × Option ℕ
unfolding sched_numa_list_next usable
cross_numa numas zero last = (none, last)
cross_numa numas (suc n) last =
    let i = sched_numa_list_next numas last in
    let rest = cross_numa numas n (some i) in if usable numas i then (some i, some i) else rest

pub pick_numa : List SchedNuma → Option ℕ → ℕ → Option ℕ × Option ℕ
unfolding cross_numa usable sched_numa_list_lookup
pick_numa numas last numa_id = elim (sched_numa_list_lookup numas numa_id) [
  | none ↦ cross_numa numas (length numas) last
  | some i ↦ if usable numas i then (some i, last) else cross_numa numas (length numas) last
]

-- The state of the second loop.
pub record Assigned : Type 0 where
  pub numas : List SchedNuma
  pub last_cross_numa : Option ℕ
  pub unpolled : List Rxq

-- A queue at the thread that was chosen, if one was.
pub place_rxq : Rxq → ℕ → SchedNuma → Option ℕ → Assigned → Assigned
unfolding sched_pmd_add_rxq
place_rxq rxq i moved none s = record s {
  numas = set s.numas i moved;
  unpolled = s.unpolled ++ (rxq ∷ []);
}
place_rxq rxq i moved (some j) s = record s {
  numas =
      set s.numas i
        (record moved { pmds = modify moved.pmds j (sched_pmd_add_rxq rxq rxq.cycles) });
}

pub assign_in : AssignmentType → Rxq → Option ℕ → Assigned → Result Assigned
unfolding place_rxq sched_pmd_next
assign_in algo rxq none s = ok (record s { unpolled = s.unpolled ++ (rxq ∷ []) })
assign_in algo rxq (some i) s = do
  numa ← deref (get_elem? s.numas i)
  choice ← sched_pmd_next numa algo (not (rxq.cycles == 0))
  ok (place_rxq rxq i choice.0 choice.1 s)

pub assign_rxq : AssignmentType → Rxq → Assigned → Result Assigned
unfolding pick_numa assign_in
assign_rxq algo rxq s =
    let (chosen, last) = pick_numa s.numas s.last_cross_numa rxq.netdev_numa_id in
    assign_in algo rxq chosen (record s { last_cross_numa = last })

pub assign_rxqs : AssignmentType → List Rxq → Assigned → Result Assigned
unfolding assign_rxq
assign_rxqs algo [] s = ok s
assign_rxqs algo (rxq ∷ rxqs) s = do s' ← assign_rxq algo rxq s; assign_rxqs algo rxqs s'

-- `rxqs` are the queues of the ports that threads poll, their cycles stored.
unfoldable pub sched_numa_list_schedule :
    List PmdThread → Bool → AssignmentType → List Rxq → List SchedNuma → Result Assigned
unfolding gather_rxqs sort_rxqs assign_rxqs
sched_numa_list_schedule pmds iso algo rxqs numas =
    let (pinned, rest) = gather_rxqs pmds iso rxqs (numas, []) in
    assign_rxqs algo (sort_rxqs algo rest)
      (record { numas = pinned; last_cross_numa = none; unpolled = [] })
