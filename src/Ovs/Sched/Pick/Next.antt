-- ===== src/Ovs/Sched/Pick/Next.antt =====
-- sched_pmd_next chooses a thread that is not isolated, by every algorithm.
use repath.Base.{
  ℕ, ◌<◌, ◌≡◌, refl, Bool, true, false, some, length, get_elem?, All-get_elem?, arith, inl, inr,
}
use repath.Ovs.Sched.{
  SchedPmd, SchedNuma, AssignmentType, sched_roundrobin, sched_cycles, sched_group,
}
use repath.Ovs.Sched.Pick.{pmd_num, uint64_max, sched_pmd_next}
use repath.Ovs.Sched.Pick.Walk.{Found, sched_pmd_next_noniso_rr-Found}
use repath.Ovs.Sched.Pick.Lowest.{AtLeast, sched_pmd_get_lowest-IsFirstLowest}

pub sched_pmd_next-Found :
    (numa : SchedNuma) (algo : AssignmentType) (has_proc : Bool) (j : ℕ) (p : SchedPmd)
    → numa.rr_cur_index < length numa.pmds
    → get_elem? numa.pmds j ≡ some p
    → p.isolated ≡ false
    → pmd_num has_proc p < uint64_max
    → Found numa (sched_pmd_next numa algo has_proc)
unfolding sched_pmd_next
sched_pmd_next-Found numa sched_roundrobin has_proc j p h at free less =
    sched_pmd_next_noniso_rr-Found numa false j p h at free
sched_pmd_next-Found numa sched_cycles has_proc j p h at free less =
    sched_pmd_next_noniso_rr-Found numa true j p h at free
sched_pmd_next-Found numa sched_group has_proc j p h at free less =
    elim (sched_pmd_get_lowest-IsFirstLowest has_proc numa) [
      | inl (e, all) ↦ absurd (
          ground
            (arith, All-get_elem? (AtLeast has_proc uint64_max) numa.pmds j all at, free, less))
      | inr (k, q, e, (at_k, free_k, less_k, all, before)) ↦
          unfold Found in
          (
            numa,
            k,
            q,
            rw e refl,
            at_k,
            free_k,
            record { same_id = refl; same_pmds = refl; same_isolated = refl; in_range = h },
          )
    ]
