-- ===== src/Ovs/Sched/Pick.antt =====
-- The choice of a thread of a NUMA node: sched_pmd_get_lowest, sched_pmd_next_rr,
-- sched_pmd_next_noniso_rr and sched_pmd_next of dpif-netdev.c.
pub mod Walk
pub mod Lowest
pub mod Next
use repath.Base.{
  ℕ, zero, suc, ◌+◌, ◌-◌, ◌*◌, ◌≡◌, Bool, true, false, Option, none, some, List, [], ◌∷◌, length,
  ltb, ◌==◌, if◌then◌else◌, Result, ok, deref, and_then, ◌>>=◌, get_elem?,
}
use repath.Ovs.Sched.{
  SchedPmd, SchedNuma, AssignmentType, sched_roundrobin, sched_cycles, sched_group,
}

unfoldable pub sched_numa_noniso_pmd_count : SchedNuma → ℕ
sched_numa_noniso_pmd_count numa =
    if ltb numa.n_isolated (length numa.pmds) then length numa.pmds - numa.n_isolated else 0

-- What a thread is measured by: its cycles, or the number of its queues.
abbrev pub pmd_num : Bool → SchedPmd → ℕ
pmd_num has_cyc p = if has_cyc then p.pmd_proc_cycles else length p.rxqs

-- The loop of sched_pmd_get_lowest from the index `i`.
pub lowest_from : Bool → ℕ → ℕ → Option ℕ → List SchedPmd → Option ℕ
lowest_from has_cyc i lowest_num lowest [] = lowest
lowest_from has_cyc i lowest_num lowest (p ∷ pmds) =
    let pass = lowest_from has_cyc (suc i) lowest_num lowest pmds in
    let take_p = lowest_from has_cyc (suc i) (pmd_num has_cyc p) (some i) pmds in
    if p.isolated then pass else if ltb (pmd_num has_cyc p) lowest_num then take_p else pass

-- UINT64_MAX
abbrev pub uint64_max : ℕ
uint64_max = 18446744073709551615

unfoldable pub sched_pmd_get_lowest : SchedNuma → Bool → Option ℕ
unfolding lowest_from
sched_pmd_get_lowest numa has_cyc = lowest_from has_cyc 0 uint64_max none numa.pmds

-- The node after the call, and the index that it returns a pointer at.
pub sched_pmd_next_rr : SchedNuma → Bool → SchedNuma × ℕ
sched_pmd_next_rr numa updown = (moved, numa.rr_cur_index)
  where
    moved : SchedNuma
    moved =
        if numa.rr_idx_inc
        then if numa.rr_cur_index + 1 == length numa.pmds
          then if updown
            then record numa { rr_idx_inc = false }
            else record numa { rr_cur_index = 0 }
          else record numa { rr_cur_index = numa.rr_cur_index + 1 }
        else if numa.rr_cur_index == 0
        then record numa { rr_idx_inc = true }
        else record numa { rr_cur_index = numa.rr_cur_index - 1 }

-- The loop of sched_pmd_next_noniso_rr, with the rounds that are left.
pub noniso_rr : ℕ → SchedNuma → Bool → Result (SchedNuma × Option ℕ)
unfolding sched_pmd_next_rr
noniso_rr zero numa updown = ok (numa, none)
noniso_rr (suc n) numa updown = do
  let (moved, i) = sched_pmd_next_rr numa updown
  p ← deref (get_elem? numa.pmds i)
  elim p.isolated [ false ↦ ok (moved, some i) | true ↦ noniso_rr n moved updown ]

unfoldable pub sched_pmd_next_noniso_rr : SchedNuma → Bool → Result (SchedNuma × Option ℕ)
unfolding noniso_rr
sched_pmd_next_noniso_rr numa updown = noniso_rr (length numa.pmds * 2) numa updown

unfoldable pub sched_pmd_next : SchedNuma → AssignmentType → Bool → Result (SchedNuma × Option ℕ)
unfolding sched_pmd_next_noniso_rr sched_pmd_get_lowest
sched_pmd_next numa sched_group has_proc = ok (numa, sched_pmd_get_lowest numa has_proc)
sched_pmd_next numa sched_cycles has_proc = sched_pmd_next_noniso_rr numa true
sched_pmd_next numa sched_roundrobin has_proc = sched_pmd_next_noniso_rr numa false
