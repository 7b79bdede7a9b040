-- ===== src/Ovs/Sched/Reconfigure.antt =====
-- The hand-over of receive queues from thread to thread in dpif-netdev.c:
-- sched_numa_list_put_in_place, rxq_scheduling, and the steps 4 to 6 of reconfigure_datapath.
pub mod Handover
pub mod Exclusive
pub mod Moves
pub mod Final
use repath.Base.{
  ℕ, zero, suc, ◌+◌, ◌≡◌, Bool, true, false, not, ◌&&◌, ◌||◌, Option, none, some, List, [], ◌∷◌,
  ◌++◌, map, length, ◌==◌, if◌then◌else◌, Result, ok, and_then, ◌>>=◌,
}
use repath.Ovs.Sched.{
  QueueId, PmdThread, Rxq, NetdevPort, AssignmentType, Datapath, PmdAutoLb, SchedPmd, SchedNuma,
  sched_numa_list_populate,
}
use repath.Ovs.Sched.Assign.{store_port, pmd_rxqs, Assigned, sched_numa_list_schedule}

abbrev pub id_of : Rxq → QueueId
id_of rxq = record { port_no = rxq.port_no; queue_id = rxq.queue_id }

abbrev pub same_queue : QueueId → QueueId → Bool
same_queue a b = a.port_no == b.port_no && a.queue_id == b.queue_id

-- rxq->pmd = core, where `rxq` points at a queue of the ports.
pub set_rxq_pmd : ℕ → QueueId → Rxq → Rxq
set_rxq_pmd core id rxq = if same_queue id (id_of rxq) then record rxq { pmd = some core } else rxq

pub set_port_pmd : ℕ → QueueId → NetdevPort → NetdevPort
unfolding set_rxq_pmd
set_port_pmd core id port = record port { rxqs = map (set_rxq_pmd core id) port.rxqs }

pub put_rxqs : ℕ → List Rxq → List NetdevPort → List NetdevPort
unfolding set_port_pmd
put_rxqs core [] ports = ports
put_rxqs core (rxq ∷ rxqs) ports = put_rxqs core rxqs (map (set_port_pmd core (id_of rxq)) ports)

pub put_isolated : SchedPmd → PmdThread → PmdThread
put_isolated p pmd =
    if pmd.core_id == p.pmd.core_id then record pmd { isolated = p.isolated } else pmd

pub put_pmds : List SchedPmd → Datapath → Datapath
unfolding put_rxqs put_isolated
put_pmds [] dp = dp
put_pmds (p ∷ pmds) dp = put_pmds pmds (record dp {
  poll_threads = map (put_isolated p) dp.poll_threads;
  ports = put_rxqs p.pmd.core_id p.rxqs dp.ports;
})

pub sched_numa_list_put_in_place : List SchedNuma → Datapath → Datapath
unfolding put_pmds
sched_numa_list_put_in_place [] dp = dp
sched_numa_list_put_in_place (numa ∷ numas) dp =
    sched_numa_list_put_in_place numas (put_pmds numa.pmds dp)

-- The datapath with the cycles of its queues stored.
unfoldable pub with_hist : Datapath → Datapath
unfolding store_port
with_hist dp = record dp { ports = map (store_port dp.pmd_rxq_assign_type) dp.ports }

pub rxq_scheduling : (SchedNuma → List SchedNuma → List SchedNuma) → Datapath → Result Datapath
unfolding with_hist pmd_rxqs sched_numa_list_schedule sched_numa_list_put_in_place
rxq_scheduling hmap_insert dp = do
  t ←
      sched_numa_list_schedule dp.poll_threads dp.pmd_iso dp.pmd_rxq_assign_type
        (pmd_rxqs (with_hist dp).ports) (sched_numa_list_populate hmap_insert dp.poll_threads)
  ok (sched_numa_list_put_in_place t.numas (with_hist dp))

-- Step 4 of reconfigure_datapath: no thread is isolated and no queue assigned; then the assignment.
pub reset_isolated : PmdThread → PmdThread
reset_isolated pmd = record pmd { isolated = false }

pub reset_rxq : Rxq → Rxq
reset_rxq rxq = record rxq { pmd = none }

pub reset_port : NetdevPort → NetdevPort
unfolding reset_rxq
reset_port port = record port { rxqs = map reset_rxq port.rxqs }

pub reset_assignment : Datapath → Datapath
unfolding reset_isolated reset_port
reset_assignment dp = record dp {
  poll_threads = map reset_isolated dp.poll_threads;
  ports = map reset_port dp.ports;
}

-- poll->rxq->pmd: which thread a queue is meant for.
pub wanted_in : List Rxq → QueueId → Option ℕ → Option ℕ
wanted_in [] id other = other
wanted_in (rxq ∷ rxqs) id other =
    if same_queue id (id_of rxq) then rxq.pmd else wanted_in rxqs id other

unfoldable pub wanted : List NetdevPort → QueueId → Option ℕ
unfolding wanted_in
wanted [] id = none
wanted (port ∷ ports) id = wanted_in port.rxqs id (wanted ports id)

abbrev pub is_core : Option ℕ → ℕ → Bool
is_core none core = false
is_core (some c) core = c == core

-- hmapx_contains(&busy_threads, pmd): some queue is meant for the thread.
pub any_rxq_for : ℕ → List Rxq → Bool
any_rxq_for core [] = false
any_rxq_for core (rxq ∷ rxqs) = is_core rxq.pmd core || any_rxq_for core rxqs

pub is_busy : List NetdevPort → ℕ → Bool
unfolding any_rxq_for
is_busy [] core = false
is_busy (port ∷ ports) core = any_rxq_for core port.rxqs || is_busy ports core

-- The map poll_list has at most one entry for a queue.
pub without : QueueId → List QueueId → List QueueId
without id [] = []
without id (q ∷ qs) = if same_queue id q then without id qs else q ∷ without id qs

pub dp_netdev_del_rxq_from_pmd : QueueId → PmdThread → PmdThread
unfolding without
dp_netdev_del_rxq_from_pmd id pmd = record pmd {
  poll_list = without id pmd.poll_list;
  need_reload = true;
}

abbrev pub has_queue : QueueId → List QueueId → Bool
has_queue id [] = false
has_queue id (q ∷ qs) = same_queue id q || has_queue id qs

pub dp_netdev_add_rxq_to_pmd : QueueId → PmdThread → PmdThread
dp_netdev_add_rxq_to_pmd id pmd =
    if has_queue id pmd.poll_list
    then pmd
    else record pmd { poll_list = id ∷ pmd.poll_list; need_reload = true }

-- Step 5: a thread lets go of the queues that are not meant for it, one by one.
pub note_wait : List NetdevPort → PmdThread → PmdThread
unfolding is_busy
note_wait ports pmd =
    if length pmd.poll_list == 0 && is_busy ports pmd.core_id
    then record pmd { wait_for_reload = true }
    else pmd

pub drop_stale : List NetdevPort → List QueueId → PmdThread → PmdThread
unfolding note_wait dp_netdev_del_rxq_from_pmd
drop_stale ports [] pmd = pmd
drop_stale ports (id ∷ ids) pmd = drop_stale ports ids (
    if is_core (wanted ports id) pmd.core_id
    then pmd
    else note_wait ports (dp_netdev_del_rxq_from_pmd id pmd))

pub remove_queues : List NetdevPort → List PmdThread → List PmdThread
unfolding drop_stale
remove_queues ports [] = []
remove_queues ports (pmd ∷ pmds) = drop_stale ports pmd.poll_list pmd ∷ remove_queues ports pmds

-- reload_affected_pmds, when it has waited for the threads.
unfoldable pub reload : PmdThread → PmdThread
reload pmd = record pmd { polling = pmd.poll_list; need_reload = false }

pub reload_affected_pmds : List PmdThread → List PmdThread
unfolding reload
reload_affected_pmds [] = []
reload_affected_pmds (pmd ∷ pmds) =
    (if pmd.need_reload then reload pmd else pmd) ∷ reload_affected_pmds pmds

-- Step 6: the queues are given to the threads that they are meant for.
pub add_to_core : ℕ → QueueId → List PmdThread → List PmdThread
unfolding dp_netdev_add_rxq_to_pmd
add_to_core core id [] = []
add_to_core core id (pmd ∷ pmds) =
    if pmd.core_id == core
    then dp_netdev_add_rxq_to_pmd id pmd ∷ pmds
    else pmd ∷ add_to_core core id pmds

pub add_rxq : Rxq → List PmdThread → List PmdThread
unfolding add_to_core
add_rxq rxq pmds = elim rxq.pmd [ none ↦ pmds | some core ↦ add_to_core core (id_of rxq) pmds ]

pub add_rxqs : List Rxq → List PmdThread → List PmdThread
unfolding add_rxq
add_rxqs [] pmds = pmds
add_rxqs (rxq ∷ rxqs) pmds = add_rxqs rxqs (add_rxq rxq pmds)

-- Steps 4 to 6.
pub reconfigure_queues : (SchedNuma → List SchedNuma → List SchedNuma) → Datapath → Result Datapath
unfolding rxq_scheduling reset_assignment remove_queues reload_affected_pmds add_rxqs
reconfigure_queues hmap_insert dp = do
  s ← rxq_scheduling hmap_insert (reset_assignment dp)
  let removed = reload_affected_pmds (remove_queues s.ports s.poll_threads)
  let added = reload_affected_pmds (add_rxqs (pmd_rxqs s.ports) removed)
  ok (record s { poll_threads = added; pmd_alb = record s.pmd_alb { recheck_config = true } })
