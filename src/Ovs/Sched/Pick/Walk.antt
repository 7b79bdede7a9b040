-- ===== src/Ovs/Sched/Pick/Walk.antt =====
-- The round-robin walk of sched_pmd_next_rr reaches every thread of a node.
use repath.Base.{
  ℕ, zero, suc, ◌+◌, ◌-◌, ◌*◌, ◌<◌, ◌≡◌, refl, Bool, true, false, Option, none, some, length, ltb,
  ◌==◌, if◌then◌else◌, Result, ok, get_elem?, arith, inl, inr, Bool-cases, get_elem?-some,
  get_elem?-lt, sym, ◌∙◌,
}
use mathlib.Core.Path.{subst}
use repath.Ovs.Sched.{SchedPmd, SchedNuma}
use repath.Ovs.Sched.Pick.{sched_pmd_next_rr, noniso_rr, sched_pmd_next_noniso_rr}

-- What a choice may change of a node: its place in the walk, which stays within the array.
pub record IsMoved (numa moved : SchedNuma) : Type 0 where
  pub same_id : moved.numa_id ≡ numa.numa_id
  pub same_pmds : moved.pmds ≡ numa.pmds
  pub same_isolated : moved.n_isolated ≡ numa.n_isolated
  pub in_range : moved.rr_cur_index < length numa.pmds

next_rr-IsMoved :
    (numa : SchedNuma) (updown : Bool)
    → numa.rr_cur_index < length numa.pmds
    → IsMoved numa (sched_pmd_next_rr numa updown).0
unfolding sched_pmd_next_rr
next_rr-IsMoved numa updown h = ground arith

-- The calls until the walk is at the index `j`.
distance : Bool → SchedNuma → ℕ → ℕ
distance updown numa j =
    if numa.rr_idx_inc
    then if ltb j numa.rr_cur_index
      then if updown
        then (length numa.pmds - numa.rr_cur_index) + (length numa.pmds - 1 - j)
        else (length numa.pmds - numa.rr_cur_index) + j
      else j - numa.rr_cur_index
    else if ltb numa.rr_cur_index j
    then numa.rr_cur_index + 1 + j
    else numa.rr_cur_index - j

distance-lt :
    (updown : Bool) (numa : SchedNuma) (j : ℕ)
    → numa.rr_cur_index < length numa.pmds
    → j < length numa.pmds
    → distance updown numa j < length numa.pmds * 2
unfolding distance
distance-lt updown numa j h k = ground arith

distance-next_rr :
    (updown : Bool) (numa : SchedNuma) (j : ℕ)
    → numa.rr_cur_index < length numa.pmds
    → j < length numa.pmds
    → (numa.rr_cur_index == j) ≡ false
    → distance updown (sched_pmd_next_rr numa updown).0 j + 1 ≡ distance updown numa j
unfolding distance sched_pmd_next_rr
distance-next_rr updown numa j h k ne = ground arith

IsMoved-trans : {a b c : SchedNuma} → IsMoved a b → IsMoved b c → IsMoved a c
IsMoved-trans {a} {b} {c} f g = record {
  same_id = g.same_id ∙ f.same_id;
  same_pmds = g.same_pmds ∙ f.same_pmds;
  same_isolated = g.same_isolated ∙ f.same_isolated;
  in_range = subst (λ pmds. c.rr_cur_index < length pmds) f.same_pmds g.in_range;
}

-- The call has chosen a thread that is not isolated.
unfoldable pub Found : SchedNuma → Result (SchedNuma × Option ℕ) → Type 0
Found numa r =
    (moved : SchedNuma) × (i : ℕ) × (p : SchedPmd) × (r ≡ ok (moved, some i))
    × (get_elem? numa.pmds i ≡ some p)
    × (p.isolated ≡ false)
    × IsMoved numa moved

Found-next :
    {numa moved : SchedNuma} (r : Result (SchedNuma × Option ℕ))
    → IsMoved numa moved
    → Found moved r
    → Found numa r
unfolding Found
Found-next r m (moved, i, p, e, at_i, free, m') = (
  moved,
  i,
  p,
  e,
  subst (λ pmds. get_elem? pmds i ≡ some p) m.same_pmds at_i,
  free,
  IsMoved-trans m m',
)

module _ (n : ℕ) (numa : SchedNuma) (updown : Bool) (q : SchedPmd) where
  next_free :
      get_elem? numa.pmds numa.rr_cur_index ≡ some q
      → q.isolated ≡ false
      → noniso_rr (suc n) numa updown
        ≡ ok ((sched_pmd_next_rr numa updown).0, some numa.rr_cur_index)
  unfolding noniso_rr
  next_free at free = rw at (rw free refl)

  next_isolated :
      get_elem? numa.pmds numa.rr_cur_index ≡ some q
      → q.isolated ≡ true
      → noniso_rr (suc n) numa updown ≡ noniso_rr n (sched_pmd_next_rr numa updown).0 updown
  unfolding noniso_rr
  next_isolated at iso = rw at (rw iso refl)

-- With the distance to a free thread as fuel, the walk finds one.
noniso_rr-Found :
    (n : ℕ) (numa : SchedNuma) (updown : Bool) (j : ℕ) (p : SchedPmd)
    → numa.rr_cur_index < length numa.pmds
    → j < length numa.pmds
    → get_elem? numa.pmds j ≡ some p
    → p.isolated ≡ false
    → distance updown numa j < n
    → Found numa (noniso_rr n numa updown)
noniso_rr-Found zero numa updown j p h k e free d = absurd (omega arith)
noniso_rr-Found (suc n) numa updown j p h k e free d =
    let moves = next_rr-IsMoved numa updown h in
    let (q, at) = get_elem?-some numa.pmds numa.rr_cur_index h in
    elim (Bool-cases q.isolated) [
      | inl iso ↦
          let far : (numa.rr_cur_index == j) ≡ false = ground (arith, e, at, iso, free) in
          let closer = distance-next_rr updown numa j h k far in
          rw (next_isolated n numa updown q at iso) (
            Found-next _ moves (
              noniso_rr-Found n (sched_pmd_next_rr numa updown).0 updown j p
                (subst (λ pmds. (sched_pmd_next_rr numa updown).0.rr_cur_index < length pmds)
                  (sym moves.same_pmds) moves.in_range)
                (rw moves.same_pmds k) (rw moves.same_pmds e) free (omega arith)))
      | inr clear ↦
          unfold Found in
          (_, numa.rr_cur_index, q, next_free n numa updown q at clear, at, clear, moves)
    ]

-- Where all threads are isolated the walk gives up after its last round.
noniso_rr-none :
    (n : ℕ) (numa : SchedNuma) (updown : Bool)
    → numa.rr_cur_index < length numa.pmds
    → ((j : ℕ) (p : SchedPmd) → get_elem? numa.pmds j ≡ some p → p.isolated ≡ true)
    → (moved : SchedNuma) × (noniso_rr n numa updown ≡ ok (moved, none)) × IsMoved numa moved
noniso_rr-none zero numa updown h all =
    unfold noniso_rr in
    (numa, refl, record { same_id = refl; same_pmds = refl; same_isolated = refl; in_range = h })
noniso_rr-none (suc n) numa updown h all =
    let moves = next_rr-IsMoved numa updown h in
    let (q, at) = get_elem?-some numa.pmds numa.rr_cur_index h in
    let (moved, e, m) =
      noniso_rr-none n (sched_pmd_next_rr numa updown).0 updown
        (subst (λ pmds. (sched_pmd_next_rr numa updown).0.rr_cur_index < length pmds)
          (sym moves.same_pmds) moves.in_range)
        (λ j p e. all j p (subst (λ pmds. get_elem? pmds j ≡ some p) moves.same_pmds e)) in
    (
      moved,
      next_isolated n numa updown q at (all numa.rr_cur_index q at) ∙ e,
      IsMoved-trans moves m,
    )

-- On a node whose walk is within its array and of whose threads one is not isolated, the function
-- returns within its 2 * n_pmds rounds a thread that is not isolated, wherever the walk stands and
-- in whichever direction it goes; of the node it changes the place in the walk alone, which is
-- within the array again.
pub sched_pmd_next_noniso_rr-Found :
    (numa : SchedNuma) (updown : Bool) (j : ℕ) (p : SchedPmd)
    → numa.rr_cur_index < length numa.pmds
    → get_elem? numa.pmds j ≡ some p
    → p.isolated ≡ false
    → Found numa (sched_pmd_next_noniso_rr numa updown)
unfolding sched_pmd_next_noniso_rr
sched_pmd_next_noniso_rr-Found numa updown j p h e free =
    noniso_rr-Found (length numa.pmds * 2) numa updown j p h (get_elem?-lt numa.pmds j e) e free
      (distance-lt updown numa j h (get_elem?-lt numa.pmds j e))

pub sched_pmd_next_noniso_rr-none :
    (numa : SchedNuma) (updown : Bool)
    → numa.rr_cur_index < length numa.pmds
    → ((j : ℕ) (p : SchedPmd) → get_elem? numa.pmds j ≡ some p → p.isolated ≡ true)
    → (moved : SchedNuma) × (sched_pmd_next_noniso_rr numa updown ≡ ok (moved, none))
      × IsMoved numa moved
unfolding sched_pmd_next_noniso_rr
sched_pmd_next_noniso_rr-none numa updown h all =
    noniso_rr-none (length numa.pmds * 2) numa updown h all
