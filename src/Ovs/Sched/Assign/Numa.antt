-- ===== src/Ovs/Sched/Assign/Numa.antt =====
-- The choice of a NUMA node for a queue: its own, or the next that has a thread to offer.
use repath.Base.{
  ℕ, zero, suc, ◌+◌, ◌-◌, ◌<◌, ◌≡◌, refl, true, false, Option, none, some, List, length, ltb, ◌==◌,
  if◌then◌else◌, get_elem?, get_elem?-lt, total, total-cases, All, All-get_elem?, arith, ◌⊎◌, inl,
  inr, Bool-cases, Option-cases, ltb→lt, lt→ltb, ◌∙◌,
}
use repath.Ovs.Sched.{SchedNuma, sched_numa_list_lookup}
use repath.Ovs.Sched.Assign.{sched_numa_list_next, usable, cross_numa, pick_numa}
use repath.Ovs.Sched.Assign.Sound.{IsSound, free_threads, noniso_pmd_count-eq}

-- The calls of sched_numa_list_next until the search is at the index `j`.
distance : ℕ → Option ℕ → ℕ → ℕ
distance n none j = j
distance n (some i) j = if ltb i j then j - i - 1 else (n - 1 - i) + j

-- last_cross_numa points at a node of the list, or at none.
unfoldable pub IsLast : List SchedNuma → Option ℕ → Type 0
IsLast numas none = Unit
IsLast numas (some i) = i < length numas

next-lt :
    (numas : List SchedNuma) (last : Option ℕ)
    → 0 < length numas
    → sched_numa_list_next numas last < length numas
unfolding sched_numa_list_next
next-lt numas none h = h
next-lt numas (some i) h = ground arith

distance-lt :
    (numas : List SchedNuma) (last : Option ℕ) (j : ℕ)
    → IsLast numas last
    → j < length numas
    → distance (length numas) last j < length numas
unfolding distance IsLast
distance-lt numas none j l h = h
distance-lt numas (some i) j l h = ground arith

distance-next :
    (numas : List SchedNuma) (last : Option ℕ) (j : ℕ)
    → IsLast numas last
    → j < length numas
    → (sched_numa_list_next numas last == j) ≡ false
    → distance (length numas) (some (sched_numa_list_next numas last)) j + 1
      ≡ distance (length numas) last j
unfolding distance sched_numa_list_next IsLast
distance-next numas none j l h ne = ground arith
distance-next numas (some i) j l h ne = ground arith

usable-free :
    (numas : List SchedNuma) (i : ℕ) {numa : SchedNuma}
    → All IsSound numas
    → get_elem? numas i ≡ some numa
    → usable numas i ≡ ltb 0 (free_threads numa)
unfolding usable
usable-free numas i {numa} sound at =
    ground (arith, at, noniso_pmd_count-eq numa (All-get_elem? IsSound numas i sound at))

-- The node at the index has a thread that is not isolated.
abbrev pub Offers : List SchedNuma → ℕ → Type 0
Offers numas i = (numa : SchedNuma) × (get_elem? numas i ≡ some numa) × (0 < free_threads numa)

usable-Offers :
    (numas : List SchedNuma) (i : ℕ) → All IsSound numas → usable numas i ≡ true → Offers numas i
usable-Offers numas i sound h = elim (Option-cases (get_elem? numas i)) [
  | inl e ↦ absurd (unfold usable in ground (arith, h, e))
  | inr (numa, e) ↦ (numa, e, ltb→lt _ _ (rw (usable-free numas i sound e) at h))
]

-- The search ends at a node that offers a thread, or without one.
abbrev Ends : List SchedNuma → Option ℕ × Option ℕ → Type 0
Ends numas r =
    ((i : ℕ) × (r ≡ (some i, some i)) × (i < length numas) × (usable numas i ≡ true))
    ⊎ ((l : Option ℕ) × (r ≡ (none, l)) × IsLast numas l)

cross_numa-Ends :
    (numas : List SchedNuma) (n : ℕ) (last : Option ℕ)
    → n ≡ 0 ⊎ 0 < length numas
    → IsLast numas last
    → Ends numas (cross_numa numas n last)
unfolding cross_numa
cross_numa-Ends numas zero last some_node l = inr (last, refl, l)
cross_numa-Ends numas (suc n) last some_node l =
    let i = sched_numa_list_next numas last in
    let lt : i < length numas = next-lt numas last (ground arith) in
    elim (Bool-cases (usable numas i)) [
      | inl yes_i ↦ inl (i, rw yes_i refl, lt, yes_i)
      | inr no_i ↦
          rw no_i (cross_numa-Ends numas n (some i) (inr (omega arith)) (unfold IsLast in lt))
    ]

-- If a node offers a thread, as many rounds as there are nodes reach one.
cross_numa-finds :
    (numas : List SchedNuma) (n : ℕ) (last : Option ℕ) (j : ℕ)
    → IsLast numas last
    → j < length numas
    → usable numas j ≡ true
    → distance (length numas) last j < n
    → (i : ℕ) × (cross_numa numas n last ≡ (some i, some i))
      × (i < length numas)
      × (usable numas i ≡ true)
unfolding cross_numa
cross_numa-finds numas zero last j l h u d = absurd (omega arith)
cross_numa-finds numas (suc n) last j l h u d =
    let i = sched_numa_list_next numas last in
    let lt : i < length numas = next-lt numas last (omega arith) in
    elim (Bool-cases (usable numas i)) [
      | inl yes_i ↦ (i, rw yes_i refl, lt, yes_i)
      | inr no_i ↦
          let far : (i == j) ≡ false = ground (arith, no_i, u) in
          let closer = distance-next numas last j l h far in
          rw no_i (cross_numa-finds numas n (some i) j (unfold IsLast in lt) h u (omega arith))
    ]

-- What pick_numa answers.
abbrev pub Picks : List SchedNuma → Option ℕ × Option ℕ → Type 0
Picks numas r =
    ((l : Option ℕ) × (r ≡ (none, l)) × IsLast numas l × (total free_threads numas ≡ 0))
    ⊎ ((i : ℕ) × (l : Option ℕ) × (r ≡ (some i, l)) × IsLast numas l × Offers numas i)

cross_numa-Picks :
    (numas : List SchedNuma) (last : Option ℕ)
    → All IsSound numas
    → IsLast numas last
    → Picks numas (cross_numa numas (length numas) last)
cross_numa-Picks numas last sound l = elim (total-cases free_threads numas) [
  | inl none_free ↦ elim (cross_numa-Ends numas (length numas) last (ground arith) l) [
    | inr (l', e, l'') ↦ inl (l', e, l'', none_free)
    | inl (i, e, lt, u) ↦ inr (i, some i, e, (unfold IsLast in lt), usable-Offers numas i sound u)
  ]
  | inr (j, numa, at, h) ↦
      let lt = get_elem?-lt numas j at in
      let u : usable numas j ≡ true = usable-free numas j sound at ∙ lt→ltb _ _ h in
      let (i, e, lt', u') =
        cross_numa-finds numas (length numas) last j l lt u (distance-lt numas last j l lt) in
      inr (i, some i, e, (unfold IsLast in lt'), usable-Offers numas i sound u')
]

module _ (numas : List SchedNuma) (last : Option ℕ) (numa_id : ℕ) where
  pick_numa-none :
      sched_numa_list_lookup numas numa_id ≡ none
      → pick_numa numas last numa_id ≡ cross_numa numas (length numas) last
  unfolding pick_numa
  pick_numa-none e = ground (arith, e)

  pick_numa-some :
      (i : ℕ)
      → sched_numa_list_lookup numas numa_id ≡ some i
      → pick_numa numas last numa_id
        ≡ (if usable numas i then (some i, last) else cross_numa numas (length numas) last)
  unfolding pick_numa
  pick_numa-some i e = ground (arith, e)

  -- Over nodes with true counts: a node that offers a thread is chosen if there is one.
  pub pick_numa-Picks :
      All IsSound numas → IsLast numas last → Picks numas (pick_numa numas last numa_id)
  pick_numa-Picks sound l = elim (Option-cases (sched_numa_list_lookup numas numa_id)) [
    | inl e ↦ rw (pick_numa-none e) (cross_numa-Picks numas last sound l)
    | inr (i, e) ↦ elim (Bool-cases (usable numas i)) [
      | inl u ↦
          rw (pick_numa-some i e) (rw u (inr (i, last, refl, l, usable-Offers numas i sound u)))
      | inr u ↦ rw (pick_numa-some i e) (rw u (cross_numa-Picks numas last sound l))
    ]
  ]
