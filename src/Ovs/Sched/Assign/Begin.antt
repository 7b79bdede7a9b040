-- ===== src/Ovs/Sched/Assign/Begin.antt =====
-- The nodes at the beginning: no thread has a queue, and the counts are true.
use repath.Base.{◌≡◌, refl, sym, ap, Bool, some, List, [], ◌∷◌, length, countp, total, All, arith}
use mathlib.Core.Path.{subst}
use repath.Ovs.Sched.{Rxq, SchedPmd, SchedNuma}
use repath.Ovs.Sched.Fresh.{IsNew, IsFresh}
use repath.Ovs.Sched.Assign.Sound.{IsSound, polled_by, polled, work_of, work}
use repath.Ovs.Sched.Assign.Pinning.{HasPinned, NumaHasPinned}

-- No thread has a queue or cycles.
module _ (test : Rxq → Bool) where
  pmds-polled : (pmds : List SchedPmd) → All IsNew pmds → total (polled_by test) pmds ≡ 0
  pmds-polled [] all = refl
  pmds-polled (p ∷ pmds) all = omega (arith, ap (countp test) all.0.0, pmds-polled pmds all.1)

  pub IsFresh-polled : (numas : List SchedNuma) → All IsFresh numas → polled test numas ≡ 0
  IsFresh-polled [] all = refl
  IsFresh-polled (numa ∷ numas) all =
      omega (arith, pmds-polled numa.pmds all.0.all_new, IsFresh-polled numas all.1)

pmds-work : (pmds : List SchedPmd) → All IsNew pmds → total work_of pmds ≡ 0
pmds-work [] all = refl
pmds-work (p ∷ pmds) all =
    omega (arith, ap (λ rxqs. length rxqs) all.0.0, all.0.1, pmds-work pmds all.1)

pub IsFresh-work : (numas : List SchedNuma) → All IsFresh numas → work numas ≡ 0
IsFresh-work [] all = refl
IsFresh-work (numa ∷ numas) all =
    omega (arith, pmds-work numa.pmds all.0.all_new, IsFresh-work numas all.1)

pmds-isolated : (pmds : List SchedPmd) → All IsNew pmds → countp (λ p. p.isolated) pmds ≡ 0
pmds-isolated [] all = refl
pmds-isolated (p ∷ pmds) all = ground (arith, all.0.2, pmds-isolated pmds all.1)

pub IsFresh-IsSound : (numas : List SchedNuma) → All IsFresh numas → All IsSound numas
IsFresh-IsSound [] all = tt
IsFresh-IsSound (numa ∷ numas) all = (
  record {
    in_range = omega (arith, all.0.at_first, all.0.some_pmd);
    counted = omega (arith, all.0.no_isolated, pmds-isolated numa.pmds all.0.all_new);
  },
  IsFresh-IsSound numas all.1,
)

pmds-HasPinned : (pmds : List SchedPmd) → All IsNew pmds → All HasPinned pmds
pmds-HasPinned [] all = tt
pmds-HasPinned (p ∷ pmds) all = (
  subst (All (λ rxq. rxq.core_id ≡ some p.pmd.core_id)) (sym all.0.0) tt,
  pmds-HasPinned pmds all.1,
)

pub IsFresh-HasPinned : (numas : List SchedNuma) → All IsFresh numas → All NumaHasPinned numas
IsFresh-HasPinned [] all = tt
IsFresh-HasPinned (numa ∷ numas) all =
    (pmds-HasPinned numa.pmds all.0.all_new, IsFresh-HasPinned numas all.1)
