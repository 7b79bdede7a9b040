-- ===== src/Ovs/Sched/Fresh.antt =====
-- The nodes that sched_numa_list_populate makes: their threads have no queues yet.
use repath.Base.{
  ◌<◌, ◌≡◌, refl, false, List, [], ◌∷◌, length, length-append, All, All-append, All-modify, modify,
  arith, inl, inr, Bool-cases, Option-cases, ltb,
}
use repath.Ovs.Sched.{
  PmdThread, SchedPmd, SchedNuma, compare_sched_pmd_list, sort_pmds, sort_numa_list_pmds,
  sched_numa_list_lookup, new_numa, new_sched_pmd, add_pmd, populate_pmd, populate_pmds,
  sched_numa_list_populate, IsHmap,
}
use repath.Ovs.Sched.Sorting.{All-qsort, length-qsort}

abbrev pub IsNew : SchedPmd → Type 0
IsNew p = (p.rxqs ≡ []) × (p.pmd_proc_cycles ≡ 0) × (p.isolated ≡ false)

pub record IsFresh (numa : SchedNuma) : Type 0 where
  pub at_first : numa.rr_cur_index ≡ 0
  pub some_pmd : 0 < length numa.pmds
  pub no_isolated : numa.n_isolated ≡ 0
  pub all_new : All IsNew numa.pmds

add_pmd-IsFresh :
    (pmd : PmdThread) (numa : SchedNuma)
    → numa.n_isolated ≡ 0
    → All IsNew numa.pmds
    → IsFresh (add_pmd pmd numa)
unfolding add_pmd
add_pmd-IsFresh pmd numa none_isolated all = record {
  at_first = refl;
  some_pmd = omega (arith, length-append numa.pmds (new_sched_pmd pmd ∷ []));
  no_isolated = none_isolated;
  all_new = All-append IsNew numa.pmds (new_sched_pmd pmd ∷ []) all ((refl, refl, refl), tt);
}

sort_pmds-IsFresh : (numa : SchedNuma) → IsFresh numa → IsFresh (sort_pmds numa)
unfolding sort_pmds
sort_pmds-IsFresh numa f = elim (Bool-cases (ltb 1 (length numa.pmds))) [
  | inr e ↦ rw e f
  | inl e ↦ rw e (record {
    at_first = f.at_first;
    some_pmd = omega (arith, f.some_pmd, length-qsort compare_sched_pmd_list numa.pmds);
    no_isolated = f.no_isolated;
    all_new = All-qsort compare_sched_pmd_list IsNew numa.pmds f.all_new;
  })
]

sort_numa_list_pmds-IsFresh :
    (numas : List SchedNuma) → All IsFresh numas → All IsFresh (sort_numa_list_pmds numas)
unfolding sort_numa_list_pmds
sort_numa_list_pmds-IsFresh [] all = tt
sort_numa_list_pmds-IsFresh (numa ∷ numas) all =
    (sort_pmds-IsFresh numa all.0, sort_numa_list_pmds-IsFresh numas all.1)

module _ (hmap_insert : SchedNuma → List SchedNuma → List SchedNuma)
    (map : IsHmap hmap_insert) where
  populate_pmd-IsFresh :
      (pmd : PmdThread) (numas : List SchedNuma)
      → All IsFresh numas
      → All IsFresh (populate_pmd hmap_insert pmd numas)
  unfolding populate_pmd
  populate_pmd-IsFresh pmd numas all = elim (Bool-cases pmd.is_non_pmd) [
    | inl e ↦
        let shape : populate_pmd hmap_insert pmd numas ≡ numas = ground (arith, e) in rw shape all
    | inr e ↦ elim (Option-cases (sched_numa_list_lookup numas pmd.numa_id)) [
      | inl new ↦
          let shape : populate_pmd hmap_insert pmd numas
              ≡ hmap_insert (add_pmd pmd (new_numa pmd.numa_id)) numas =
            ground (arith, e, new) in
          rw shape (
            map.all_insert IsFresh (add_pmd pmd (new_numa pmd.numa_id)) numas
              (add_pmd-IsFresh pmd (new_numa pmd.numa_id) refl tt) all)
      | inr (i, old) ↦
          let shape : populate_pmd hmap_insert pmd numas ≡ modify numas i (add_pmd pmd) =
            ground (arith, e, old) in
          rw shape (
            All-modify numas i (add_pmd pmd)
              (λ numa at f. add_pmd-IsFresh pmd numa f.no_isolated f.all_new) all)
    ]
  ]

  populate_pmds-IsFresh :
      (pmds : List PmdThread) (numas : List SchedNuma)
      → All IsFresh numas
      → All IsFresh (populate_pmds hmap_insert pmds numas)
  unfolding populate_pmds
  populate_pmds-IsFresh [] numas all = all
  populate_pmds-IsFresh (pmd ∷ pmds) numas all =
      populate_pmds-IsFresh pmds (populate_pmd hmap_insert pmd numas)
        (populate_pmd-IsFresh pmd numas all)

  pub populate-IsFresh :
      (pmds : List PmdThread) → All IsFresh (sched_numa_list_populate hmap_insert pmds)
  unfolding sched_numa_list_populate
  populate-IsFresh pmds =
      sort_numa_list_pmds-IsFresh (populate_pmds hmap_insert pmds [])
        (populate_pmds-IsFresh pmds [] tt)
