-- ===== src/Ovs/Sched.antt =====
-- The assignment of receive queues to threads in openvswitch-2.17.2-cq-dpu/dpif-netdev.c. Here: the
-- structs, and the list of NUMA nodes with their threads, which sched_numa_list_populate builds. A
-- thread is identified by its core, a queue by its port and its number; a pointer to a node or to a
-- thread of it is an index. Arrays in memory are taken to have fewer than 2^31 elements.
pub mod Sorting
pub mod Fresh
pub mod Pick
pub mod Assign
pub mod Reconfigure
pub mod Balance
use repath.Base.{
  ℕ, suc, ◌+◌, ◌≤◌, ◌≡◌, refl, Bool, true, false, Option, none, some, List, [], ◌∷◌, ◌++◌, length,
  ltb, leb, ◌==◌, if◌then◌else◌, modify, ℤ, pos, negsuc, is_neg, ◌-◌, add64, countp, All, total,
  ◌&&◌, not, get_elem?,
}

-- Which queue of which port.
pub record QueueId : Type 0 where
  pub port_no : ℕ
  pub queue_id : ℕ

-- dp_netdev_pmd_thread. `can_ref` is what dp_netdev_pmd_try_ref answers; `is_non_pmd` says that
-- core_id is NON_PMD_CORE_ID; `polling` is what the thread itself polls, its poll_list when it last
-- reloaded.
pub record PmdThread : Type 0 where
  pub core_id : ℕ
  pub is_non_pmd : Bool
  pub can_ref : Bool
  pub numa_id : ℕ
  pub isolated : Bool
  pub intrvl_cycles : ℕ
  pub poll_list : List QueueId
  pub need_reload : Bool
  pub wait_for_reload : Bool
  pub polling : List QueueId

-- dp_netdev_rxq, with what its port and its netdev answer. `core_id` is none for OVS_CORE_UNSPEC,
-- `cycles` is the counter RXQ_CYCLES_PROC_HIST, and `pmd` the core of the thread that polls it.
pub record Rxq : Type 0 where
  pub port_no : ℕ
  pub queue_id : ℕ
  pub netdev_numa_id : ℕ
  pub core_id : Option ℕ
  pub cycles : ℕ
  pub cycles_intrvl : List ℕ
  pub pmd : Option ℕ

pub record NetdevPort : Type 0 where
  pub is_pmd : Bool
  pub rxqs : List Rxq

pub data AssignmentType : Type 0 where
  sched_roundrobin : AssignmentType
  sched_cycles : AssignmentType
  sched_group : AssignmentType

pub record PmdAutoLb : Type 0 where
  pub do_dry_run : Bool
  pub recheck_config : Bool
  pub rebalance_improve_thresh : ℕ

pub record Datapath : Type 0 where
  pub poll_threads : List PmdThread
  pub ports : List NetdevPort
  pub pmd_iso : Bool
  pub pmd_rxq_assign_type : AssignmentType
  pub pmd_alb : PmdAutoLb

pub record SchedPmd : Type 0 where
  pub pmd : PmdThread
  pub pmd_proc_cycles : ℕ
  pub rxqs : List Rxq
  pub isolated : Bool

pub record SchedNuma : Type 0 where
  pub numa_id : ℕ
  pub pmds : List SchedPmd
  pub n_isolated : ℕ
  pub rr_cur_index : ℕ
  pub rr_idx_inc : Bool

-- qsort of the C library, as an insertion sort: of elements that compare as equal, the first stays
-- in front.
module _ {A : Type 0} (compare : A → A → ℤ) where
  pub insert_sorted : A → List A → List A
  insert_sorted x [] = x ∷ []
  insert_sorted x (y ∷ ys) = if is_neg (compare y x) then y ∷ insert_sorted x ys else x ∷ y ∷ ys

  pub qsort : List A → List A
  unfolding insert_sorted
  qsort [] = []
  qsort (x ∷ xs) = insert_sorted x (qsort xs)

-- a - b on ints that are not negative
abbrev pub sub_int : ℕ → ℕ → ℤ
sub_int a b = if leb b a then pos (a - b) else negsuc (b - a - 1)

pub compare_poll_thread_list : PmdThread → PmdThread → ℤ
compare_poll_thread_list a b =
    if ltb a.core_id b.core_id then negsuc 0 else if ltb b.core_id a.core_id then pos 1 else pos 0

pub compare_sched_pmd_list : SchedPmd → SchedPmd → ℤ
unfolding compare_poll_thread_list
compare_sched_pmd_list a b = compare_poll_thread_list a.pmd b.pmd

pub sort_pmds : SchedNuma → SchedNuma
unfolding qsort compare_sched_pmd_list
sort_pmds numa =
    if ltb 1 (length numa.pmds)
    then record numa { pmds = qsort compare_sched_pmd_list numa.pmds }
    else numa

pub sort_numa_list_pmds : List SchedNuma → List SchedNuma
unfolding sort_pmds
sort_numa_list_pmds [] = []
sort_numa_list_pmds (numa ∷ numas) = sort_pmds numa ∷ sort_numa_list_pmds numas

unfoldable pub sched_numa_list_lookup : List SchedNuma → ℕ → Option ℕ
sched_numa_list_lookup [] numa_id = none
sched_numa_list_lookup (numa ∷ numas) numa_id =
    if numa.numa_id == numa_id then some 0 else after (sched_numa_list_lookup numas numa_id)
  where
    after : Option ℕ → Option ℕ
    after none = none
    after (some i) = some (suc i)

abbrev pub new_numa : ℕ → SchedNuma
new_numa numa_id = record {
  numa_id = numa_id;
  pmds = [];
  n_isolated = 0;
  rr_cur_index = 0;
  rr_idx_inc = true;
}

abbrev pub new_sched_pmd : PmdThread → SchedPmd
new_sched_pmd pmd = record { pmd = pmd; pmd_proc_cycles = 0; rxqs = []; isolated = false }

pub add_pmd : PmdThread → SchedNuma → SchedNuma
add_pmd pmd numa = record numa {
  pmds = numa.pmds ++ (new_sched_pmd pmd ∷ []);
  rr_cur_index = 0;
  rr_idx_inc = true;
}

-- `hmap_insert` is the one of the map of nodes, which puts a node anywhere in their order.
module _ (hmap_insert : SchedNuma → List SchedNuma → List SchedNuma) where
  pub populate_pmd : PmdThread → List SchedNuma → List SchedNuma
  unfolding sched_numa_list_lookup add_pmd
  populate_pmd pmd numas =
      if pmd.is_non_pmd then numas else elim (sched_numa_list_lookup numas pmd.numa_id) [
        | none ↦ hmap_insert (add_pmd pmd (new_numa pmd.numa_id)) numas
        | some i ↦ modify numas i (add_pmd pmd)
      ]

  pub populate_pmds : List PmdThread → List SchedNuma → List SchedNuma
  unfolding populate_pmd
  populate_pmds [] numas = numas
  populate_pmds (pmd ∷ pmds) numas = populate_pmds pmds (populate_pmd pmd numas)

  unfoldable pub sched_numa_list_populate : List PmdThread → List SchedNuma
  unfolding populate_pmds sort_numa_list_pmds
  sched_numa_list_populate pmds = sort_numa_list_pmds (populate_pmds pmds [])

-- What is assumed of the map: it holds the new node besides what it held.
pub record IsHmap (hmap_insert : SchedNuma → List SchedNuma → List SchedNuma) : Type 1 where
  pub all_insert :
      (P : SchedNuma → Type 0) (numa : SchedNuma) (numas : List SchedNuma)
      → P numa
      → All P numas
      → All P (hmap_insert numa numas)
  pub total_insert :
      (f : SchedNuma → ℕ) (numa : SchedNuma) (numas : List SchedNuma)
      → total f (hmap_insert numa numas) ≡ f numa + total f numas
