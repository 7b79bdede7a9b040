-- ===== src/Ovs/Sched/Assign/Sound.antt =====
-- What holds of the nodes while queues are handed out, and what their threads amount to.
use repath.Base.{
  ℕ, ◌+◌, ◌<◌, ◌≡◌, Bool, false, not, List, length, countp, total, All, countp-not, arith, ◌⊎◌,
  some,
}
use repath.Ovs.Sched.{Rxq, SchedPmd, SchedNuma}
use repath.Ovs.Sched.Pick.{sched_numa_noniso_pmd_count}

-- The walk of a node is within its array, and n_isolated counts its isolated threads.
pub record IsSound (numa : SchedNuma) : Type 0 where
  pub in_range : numa.rr_cur_index < length numa.pmds
  pub counted : numa.n_isolated ≡ countp (λ p. p.isolated) numa.pmds

-- The threads of a node that are not isolated.
abbrev pub free_threads : SchedNuma → ℕ
free_threads numa = countp (λ p. not p.isolated) numa.pmds

-- The queues of all threads that pass a test.
abbrev pub polled_by : (Rxq → Bool) → SchedPmd → ℕ
polled_by test p = countp test p.rxqs

abbrev pub polled_in : (Rxq → Bool) → SchedNuma → ℕ
polled_in test numa = total (polled_by test) numa.pmds

abbrev pub polled : (Rxq → Bool) → List SchedNuma → ℕ
polled test numas = total (polled_in test) numas

-- The cycles and the queues of all threads.
abbrev pub work_of : SchedPmd → ℕ
work_of p = p.pmd_proc_cycles + length p.rxqs

abbrev pub work_in : SchedNuma → ℕ
work_in numa = total work_of numa.pmds

abbrev pub work : List SchedNuma → ℕ
work numas = total work_in numas

-- A queue adds its cycles and itself.
abbrev pub weight : Rxq → ℕ
weight rxq = rxq.cycles + 1

-- Each queue of a thread is pinned to its core, unless the thread is not isolated.
abbrev pub KeepsApart : SchedPmd → Type 0
KeepsApart p = All (λ rxq. (rxq.core_id ≡ some p.pmd.core_id) ⊎ (p.isolated ≡ false)) p.rxqs

abbrev pub NumaKeepsApart : SchedNuma → Type 0
NumaKeepsApart numa = All KeepsApart numa.pmds

pub noniso_pmd_count-eq :
    (numa : SchedNuma) → IsSound numa → sched_numa_noniso_pmd_count numa ≡ free_threads numa
unfolding sched_numa_noniso_pmd_count
noniso_pmd_count-eq numa s = ground (arith, s.counted, countp-not (λ p. p.isolated) numa.pmds)
