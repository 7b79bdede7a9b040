-- ===== src/Ovs/Sched/Pick/Lowest.antt =====
-- sched_pmd_get_lowest finds the thread with the least load.
use repath.Base.{
  ℕ, suc, ◌+◌, ◌≤◌, ◌<◌, ◌≡◌, refl, Bool, true, false, Option, none, some, List, [], ◌∷◌, take, All,
  get_elem?, ltb, arith, ◌⊎◌, inl, inr, Bool-cases, ltb→lt, ltb-false,
}
use repath.Ovs.Sched.{SchedPmd, SchedNuma}
use repath.Ovs.Sched.Pick.{pmd_num, lowest_from, uint64_max, sched_pmd_get_lowest}

module _ (has_cyc : Bool) where
  -- A thread is isolated, or carries at least, or more than, a load.
  abbrev pub AtLeast : ℕ → SchedPmd → Type 0
  AtLeast num q = (q.isolated ≡ true) ⊎ (num ≤ pmd_num has_cyc q)

  abbrev pub MoreThan : ℕ → SchedPmd → Type 0
  MoreThan num q = (q.isolated ≡ true) ⊎ (num < pmd_num has_cyc q)

  -- At the index `k` is a thread that is not isolated and has less than `num` to do; of the others
  -- that are not isolated none has less to do, and those before it have more.
  abbrev pub IsFirstLowest : ℕ → List SchedPmd → ℕ → SchedPmd → Type 0
  IsFirstLowest num pmds k p =
      (get_elem? pmds k ≡ some p)
      × (p.isolated ≡ false)
      × (pmd_num has_cyc p < num)
      × All (AtLeast (pmd_num has_cyc p)) pmds
      × All (MoreThan (pmd_num has_cyc p)) (take k pmds)

  Outcome : ℕ → ℕ → Option ℕ → List SchedPmd → Option ℕ → Type 0
  Outcome i num low pmds r =
      ((r ≡ low) × All (AtLeast num) pmds)
      ⊎ ((k : ℕ) × (p : SchedPmd) × (r ≡ some (i + k)) × IsFirstLowest num pmds k p)

  AtLeast-of : {m n : ℕ} (q : SchedPmd) → m < n → AtLeast n q → AtLeast m q
  AtLeast-of q h (inl iso) = inl iso
  AtLeast-of q h (inr le) = inr (omega arith)

  MoreThan-of : {m n : ℕ} (q : SchedPmd) → m < n → AtLeast n q → MoreThan m q
  MoreThan-of q h (inl iso) = inl iso
  MoreThan-of q h (inr le) = inr (omega arith)

  -- A thread that is passed over.
  Outcome-pass :
      (i num : ℕ) (low : Option ℕ) (q : SchedPmd) (pmds : List SchedPmd) (r : Option ℕ)
      → AtLeast num q
      → Outcome (suc i) num low pmds r
      → Outcome i num low (q ∷ pmds) r
  unfolding Outcome
  Outcome-pass i num low q pmds r at_least (inl (e, all)) = inl (e, (at_least, all))
  Outcome-pass i num low q pmds r at_least (inr (k, p, e, (at, free, less, all, before))) = inr (
    suc k,
    p,
    ground (arith, e),
    (at, free, less, (AtLeast-of q less at_least, all), (MoreThan-of q less at_least, before)),
  )

  -- A thread that is taken until a better one comes.
  Outcome-take :
      (i num : ℕ) (low : Option ℕ) (q : SchedPmd) (pmds : List SchedPmd) (r : Option ℕ)
      → q.isolated ≡ false
      → pmd_num has_cyc q < num
      → Outcome (suc i) (pmd_num has_cyc q) (some i) pmds r
      → Outcome i num low (q ∷ pmds) r
  unfolding Outcome
  Outcome-take i num low q pmds r free lt (inl (e, all)) =
      inr (0, q, ground (arith, e), (refl, free, lt, (inr (omega arith), all), tt))
  Outcome-take i num low q pmds r free lt (inr (k, p, e, (at, free', less, all, before))) = inr (
    suc k,
    p,
    ground (arith, e),
    (at, free', omega arith, (inr (omega arith), all), (inr less, before)),
  )

  module _ (i num : ℕ) (low : Option ℕ) (q : SchedPmd) (pmds : List SchedPmd) where
    lowest_from-pass :
        (q.isolated ≡ true) ⊎ (ltb (pmd_num has_cyc q) num ≡ false)
        → lowest_from has_cyc i num low (q ∷ pmds) ≡ lowest_from has_cyc (suc i) num low pmds
    unfolding lowest_from
    lowest_from-pass (inl iso) = ground (arith, iso)
    lowest_from-pass (inr more) = ground (arith, more)

    lowest_from-take :
        q.isolated ≡ false
        → ltb (pmd_num has_cyc q) num ≡ true
        → lowest_from has_cyc i num low (q ∷ pmds)
          ≡ lowest_from has_cyc (suc i) (pmd_num has_cyc q) (some i) pmds
    unfolding lowest_from
    lowest_from-take free less = ground (arith, free, less)

  lowest_from-Outcome :
      (i num : ℕ) (low : Option ℕ) (pmds : List SchedPmd)
      → Outcome i num low pmds (lowest_from has_cyc i num low pmds)
  lowest_from-Outcome i num low [] = unfold Outcome lowest_from in inl (refl, tt)
  lowest_from-Outcome i num low (q ∷ pmds) = elim (Bool-cases q.isolated) [
    | inl iso ↦
        rw (lowest_from-pass i num low q pmds (inl iso))
          (Outcome-pass i num low q pmds _ (inl iso) (lowest_from-Outcome (suc i) num low pmds))
    | inr free ↦ elim (Bool-cases (ltb (pmd_num has_cyc q) num)) [
      | inl less ↦ rw (lowest_from-take i num low q pmds free less) (
          Outcome-take i num low q pmds _ free (ltb→lt _ _ less)
            (lowest_from-Outcome (suc i) (pmd_num has_cyc q) (some i) pmds))
      | inr more ↦ rw (lowest_from-pass i num low q pmds (inr more)) (
          Outcome-pass i num low q pmds _ (inr (ltb-false _ _ more))
            (lowest_from-Outcome (suc i) num low pmds))
    ]
  ]

  -- The function returns the first thread with the least load of those that are not isolated, or
  -- none: then every thread is isolated, or carries UINT64_MAX.
  pub sched_pmd_get_lowest-IsFirstLowest :
      (numa : SchedNuma)
      → ((sched_pmd_get_lowest numa has_cyc ≡ none) × All (AtLeast uint64_max) numa.pmds)
        ⊎ ((k : ℕ) × (p : SchedPmd) × (sched_pmd_get_lowest numa has_cyc ≡ some k)
            × IsFirstLowest uint64_max numa.pmds k p)
  unfolding sched_pmd_get_lowest Outcome
  sched_pmd_get_lowest-IsFirstLowest numa = elim (lowest_from-Outcome 0 uint64_max none numa.pmds) [
    | inl h ↦ inl h
    | inr (k, p, e, h) ↦ inr (k, p, ground (arith, e), h)
  ]
