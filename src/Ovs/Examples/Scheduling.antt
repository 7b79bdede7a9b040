-- ===== src/Ovs/Examples/Scheduling.antt =====
-- The theorems on the assignment of receive queues at concrete inputs, and tests.
use repath.Base.{
  ℕ, ◌/◌, ◌≡◌, refl, Bool, true, false, none, some, List, [], ◌∷◌, ok, arith, if◌then◌else◌, ◌⊎◌,
  set, inr, Option, All, ◌==◌,
}
use repath.Ovs.Sched.{
  QueueId, PmdThread, Rxq, NetdevPort, sched_cycles, Datapath, SchedPmd, SchedNuma,
  sched_numa_list_populate, IsHmap,
}
use repath.Ovs.Sched.Pick.{uint64_max, sched_pmd_next_noniso_rr, sched_pmd_get_lowest}
use repath.Ovs.Sched.Pick.Walk.{Found, sched_pmd_next_noniso_rr-Found}
use repath.Ovs.Sched.Pick.Lowest.{AtLeast, IsFirstLowest, sched_pmd_get_lowest-IsFirstLowest}
use repath.Ovs.Sched.Assign.{Assigned, sched_numa_list_schedule, pmd_rxqs}
use repath.Ovs.Sched.Assign.Whole.{IsSchedule, sched_numa_list_schedule-IsSchedule}
use repath.Ovs.Sched.Reconfigure.{
  wanted, reload_affected_pmds, add_rxqs, remove_queues, reload, has_queue,
}
use repath.Ovs.Sched.Reconfigure.Handover.{Handing, turn, Moves, here, next, Owns, reloads}
use repath.Ovs.Sched.Reconfigure.Exclusive.{Moves-exclusive}
use repath.Ovs.Sched.Reconfigure.Final.{steps-Moves}
use repath.Ovs.Sched.Balance.{variance}
use repath.Ovs.Sched.Balance.Variance.{variance-total}

-- Queue 0 of port 1 and queues of port 2, on node 0.
abbrev queue : ℕ → ℕ → ℕ → Rxq
queue port_no queue_id cycles = record {
  port_no = port_no;
  queue_id = queue_id;
  netdev_numa_id = 0;
  core_id = none;
  cycles = cycles;
  cycles_intrvl = cycles ∷ [];
  pmd = some 1;
}

abbrev pinned : Rxq
pinned = record (queue 1 0 50) { core_id = some 0; pmd = some 0 }

abbrev name : ℕ → ℕ → QueueId
name port_no queue_id = record { port_no = port_no; queue_id = queue_id }

-- Three threads on node 0, the last for other work.
abbrev thread : ℕ → List QueueId → PmdThread
thread core_id poll_list = record {
  core_id = core_id;
  is_non_pmd = false;
  can_ref = true;
  numa_id = 0;
  isolated = false;
  intrvl_cycles = 100;
  poll_list = poll_list;
  need_reload = false;
  wait_for_reload = false;
  polling = poll_list;
}

abbrev threads : List PmdThread
threads =
    thread 0 (name 2 0 ∷ [])
    ∷ thread 1 (name 2 1 ∷ name 1 0 ∷ [])
    ∷ record (thread 9 []) { is_non_pmd = true }
    ∷ []

abbrev ports : List NetdevPort
ports =
    record { is_pmd = true; rxqs = pinned ∷ [] }
    ∷ record { is_pmd = true; rxqs = queue 2 0 10 ∷ queue 2 1 30 ∷ [] }
    ∷ []

abbrev datapath : Datapath
datapath = record {
  poll_threads = threads;
  ports = ports;
  pmd_iso = true;
  pmd_rxq_assign_type = sched_cycles;
  pmd_alb = record { do_dry_run = false; recheck_config = true; rebalance_improve_thresh = 25 };
}

-- A map that puts a new node in front.
abbrev in_front : SchedNuma → List SchedNuma → List SchedNuma
in_front numa numas = numa ∷ numas

in_front-IsHmap : IsHmap in_front
in_front-IsHmap = record {
  all_insert = λ P numa numas h all. (h, all);
  total_insert = λ f numa numas. refl;
}

-- The pinned queue isolates core 0; the others go to core 1, the busier first.
schedule_test :
    sched_numa_list_schedule threads true sched_cycles
      (pmd_rxqs ports)
      (sched_numa_list_populate in_front threads)
    ≡ ok (record {
      numas =
          record {
            numa_id = 0;
            pmds =
                record {
                  pmd = thread 0 (name 2 0 ∷ []);
                  pmd_proc_cycles = 50;
                  rxqs = pinned ∷ [];
                  isolated = true;
                }
                ∷ record {
                  pmd = thread 1 (name 2 1 ∷ name 1 0 ∷ []);
                  pmd_proc_cycles = 40;
                  rxqs = queue 2 1 30 ∷ queue 2 0 10 ∷ [];
                  isolated = false;
                }
                ∷ [];
            n_isolated = 1;
            rr_cur_index = 0;
            rr_idx_inc = false;
          }
          ∷ [];
      last_cross_numa = none;
      unpolled = [];
    })
unfolding sched_numa_list_schedule sched_numa_list_populate pmd_rxqs
schedule_test = refl

sched_numa_list_schedule-IsSchedule_example :
    (t : Assigned) × (sched_numa_list_schedule threads true sched_cycles
        (pmd_rxqs ports)
        (sched_numa_list_populate in_front threads)
      ≡ ok t)
    × IsSchedule threads (sched_numa_list_populate in_front threads) (pmd_rxqs ports) t
sched_numa_list_schedule-IsSchedule_example =
    sched_numa_list_schedule-IsSchedule threads true sched_cycles (pmd_rxqs ports) in_front
      in_front-IsHmap (unfold pmd_rxqs in omega arith)

-- A node of which the first thread is isolated; the walk is at the first and goes down.
abbrev assigned : ℕ → ℕ → Bool → SchedPmd
assigned core_id cycles isolated = record {
  pmd = thread core_id [];
  pmd_proc_cycles = cycles;
  rxqs = [];
  isolated = isolated;
}

abbrev half_isolated : SchedNuma
half_isolated = record {
  numa_id = 0;
  pmds = assigned 0 5 true ∷ assigned 1 9 false ∷ assigned 2 7 false ∷ [];
  n_isolated = 1;
  rr_cur_index = 0;
  rr_idx_inc = false;
}

sched_pmd_next_noniso_rr-Found_example :
    Found half_isolated (sched_pmd_next_noniso_rr half_isolated true)
sched_pmd_next_noniso_rr-Found_example =
    sched_pmd_next_noniso_rr-Found half_isolated true 2 (assigned 2 7 false) (omega arith) refl refl

sched_pmd_get_lowest-IsFirstLowest_example :
    ((sched_pmd_get_lowest half_isolated true ≡ none)
      × All (AtLeast true uint64_max) half_isolated.pmds)
    ⊎ ((k : ℕ) × (p : SchedPmd) × (sched_pmd_get_lowest half_isolated true ≡ some k)
        × IsFirstLowest true uint64_max half_isolated.pmds k p)
sched_pmd_get_lowest-IsFirstLowest_example = sched_pmd_get_lowest-IsFirstLowest true half_isolated

lowest_test : sched_pmd_get_lowest half_isolated true ≡ some 2
unfolding sched_pmd_get_lowest
lowest_test = refl

-- Core 1 gives queue 0 of port 1 to core 0, and gets queue 0 of port 2.
abbrev owner : QueueId → Option ℕ
owner id = if id.port_no == 2 then (if id.queue_id == 0 then some 0 else some 1) else some 1

start-Owns : All (Owns owner) threads
start-Owns = (
  record { has = (refl, tt); polls = (refl, tt); agrees = inr refl },
  (
    record { has = (refl, (refl, tt)); polls = (refl, (refl, tt)); agrees = inr refl },
    (record { has = tt; polls = tt; agrees = inr refl }, tt),
  ),
)

abbrev start : Handing
start = record { adding = false; pmds = threads }

abbrev final : List PmdThread
final =
    reload_affected_pmds
      (add_rxqs (pmd_rxqs ports) (reload_affected_pmds (remove_queues ports threads)))

steps-Moves_example : Moves ports start (record { adding = true; pmds = final })
unfolding pmd_rxqs wanted
steps-Moves_example = steps-Moves ports threads (refl, (refl, (refl, tt)))

-- Core 0 reloads first.
abbrev reloaded : Handing
reloaded = record { adding = false; pmds = set threads 0 (reload (thread 0 (name 2 0 ∷ []))) }

start-reloaded : Moves ports start reloaded
start-reloaded = next here (turn start 0 refl (reloads (thread 0 (name 2 0 ∷ []))))

Moves-exclusive_example : has_queue (name 1 0) (thread 0 (name 2 0 ∷ [])).polling ≡ false
Moves-exclusive_example =
    Moves-exclusive ports owner (name 1 0) start reloaded 1 0 (thread 1 (name 2 1 ∷ name 1 0 ∷ []))
      (thread 0 (name 2 0 ∷ [])) refl start-Owns start-reloaded (unfold reload in refl)
      (unfold reload in refl) (omega arith) refl

variance-total_example : variance (3 ∷ 5 ∷ 10 ∷ []) ≡ 26 / 3
variance-total_example = variance-total (3 ∷ 5 ∷ 10 ∷ []) (omega arith) (omega arith) (omega arith)
