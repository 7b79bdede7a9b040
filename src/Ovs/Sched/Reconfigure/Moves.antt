-- ===== src/Ovs/Sched/Reconfigure/Moves.antt =====
-- The steps 5 and 6 of reconfigure_datapath go through the moves of the hand-over.
use repath.Base.{
  ◌≡◌, refl, sym, ap, Bool, true, false, some, List, [], ◌∷◌, ◌++◌, length, if◌then◌else◌,
  get_elem?, set, ◌⊎◌, inl, inr, Bool-cases, if_true, if_false,
}
use mathlib.Core.Path.{subst}
use mathlib.Core.List.{append_assoc}
use repath.Ovs.Sched.{QueueId, PmdThread, NetdevPort}
use repath.Ovs.Sched.Reconfigure.{
  wanted, is_core, note_wait, drop_stale, remove_queues, reload, reload_affected_pmds,
  dp_netdev_del_rxq_from_pmd,
}
use repath.Ovs.Sched.Reconfigure.Handover.{Handing, Turn, drop, reloads, turn, Moves, here, next}

pub Moves-trans :
    {ports : List NetdevPort} {s t u : Handing}
    → Moves ports s t
    → Moves ports t u
    → Moves ports s u
Moves-trans m here = m
Moves-trans m (next n move) = next (Moves-trans m n) move

-- A thread in the midst of others.
get_elem?-middle :
    {A : Type 0} (xs ys : List A) (x : A) → get_elem? (xs ++ (x ∷ ys)) (length xs) ≡ some x
get_elem?-middle [] ys x = refl
get_elem?-middle (y ∷ xs) ys x = get_elem?-middle xs ys x

set-middle :
    {A : Type 0} (xs ys : List A) (x z : A) → set (xs ++ (x ∷ ys)) (length xs) z ≡ xs ++ (z ∷ ys)
set-middle [] ys x z = refl
set-middle (y ∷ xs) ys x z = ap (◌∷◌ y) (set-middle xs ys x z)

module _ (ports : List NetdevPort) (adding : Bool) where
  -- Several turns of one thread.
  pub data Turns (p : PmdThread) : PmdThread → Type 0 where
    rest : Turns p p
    then_turn : {q r : PmdThread} → Turns p q → Turn ports adding q r → Turns p r

  Turns-trans : {p q r : PmdThread} → Turns p q → Turns q r → Turns p r
  Turns-trans a rest = a
  Turns-trans a (then_turn b t) = then_turn (Turns-trans a b) t

  abbrev pub at_work : List PmdThread → Handing
  at_work pmds = record { adding = adding; pmds = pmds }

  Turns-Moves :
      (xs ys : List PmdThread) {p q : PmdThread}
      → Turns p q
      → Moves ports (at_work (xs ++ (p ∷ ys))) (at_work (xs ++ (q ∷ ys)))
  Turns-Moves xs ys {p} rest = here
  Turns-Moves xs ys {p} (then_turn {q} {r} turns t) =
      subst (λ pmds. Moves ports (at_work (xs ++ (p ∷ ys))) (at_work pmds)) (set-middle xs ys q r)
        (next (Turns-Moves xs ys turns)
          (turn (at_work (xs ++ (q ∷ ys))) (length xs) (get_elem?-middle xs ys q) t))

  -- Each thread has had some turns.
  unfoldable pub Turned : List PmdThread → List PmdThread → Type 0
  Turned [] [] = Unit
  Turned [] (q ∷ qs) = ⊥
  Turned (p ∷ ps) [] = ⊥
  Turned (p ∷ ps) (q ∷ qs) = Turns p q × Turned ps qs

  pub Turned-Moves :
      (xs ps qs : List PmdThread)
      → Turned ps qs
      → Moves ports (at_work (xs ++ ps)) (at_work (xs ++ qs))
  unfolding Turned
  Turned-Moves xs [] [] t = here
  Turned-Moves xs [] (q ∷ qs) t = absurd t
  Turned-Moves xs (p ∷ ps) [] t = absurd t
  Turned-Moves xs (p ∷ ps) (q ∷ qs) t = Moves-trans (Turns-Moves xs ps t.0) (
      subst (λ pmds. Moves ports (at_work pmds) (at_work (xs ++ (q ∷ qs))))
        (append_assoc xs (q ∷ []) ps)
        (subst (λ pmds. Moves ports (at_work ((xs ++ (q ∷ [])) ++ ps)) (at_work pmds))
          (append_assoc xs (q ∷ []) qs) (Turned-Moves (xs ++ (q ∷ [])) ps qs t.1)))

  pub Turned-refl : (ps : List PmdThread) → Turned ps ps
  unfolding Turned
  Turned-refl [] = tt
  Turned-refl (p ∷ ps) = (rest, Turned-refl ps)

  pub reload_affected_pmds-Turned : (ps : List PmdThread) → Turned ps (reload_affected_pmds ps)
  unfolding Turned reload_affected_pmds
  reload_affected_pmds-Turned [] = tt
  reload_affected_pmds-Turned (p ∷ ps) =
      (reloaded (Bool-cases p.need_reload), reload_affected_pmds-Turned ps)
    where
      reloaded :
          (p.need_reload ≡ true) ⊎ (p.need_reload ≡ false)
          → Turns p (if p.need_reload then reload p else p)
      reloaded (inl e) =
          subst (Turns p) (sym (if_true p.need_reload (reload p) p e)) (then_turn rest (reloads p))
      reloaded (inr e) = subst (Turns p) (sym (if_false p.need_reload (reload p) p e)) rest

-- Step 5 for one thread.
module _ (ports : List NetdevPort) where
  drop_stale-Turns :
      (ids : List QueueId) (p : PmdThread) → Turns ports false p (drop_stale ports ids p)
  unfolding drop_stale
  drop_stale-Turns [] p = rest
  drop_stale-Turns (id ∷ ids) p = elim (Bool-cases (is_core (wanted ports id) p.core_id)) [
    | inl mine ↦
        subst (λ r. Turns ports false p (drop_stale ports ids r)) (sym (if_true _ p _ mine))
          (drop_stale-Turns ids p)
    | inr stale ↦
        subst (λ r. Turns ports false p (drop_stale ports ids r)) (sym (if_false _ p _ stale))
          (Turns-trans ports false (then_turn rest (drop p id refl stale))
            (drop_stale-Turns ids (note_wait ports (dp_netdev_del_rxq_from_pmd id p))))
  ]

  pub remove_queues-Turned : (ps : List PmdThread) → Turned ports false ps (remove_queues ports ps)
  unfolding Turned remove_queues
  remove_queues-Turned [] = tt
  remove_queues-Turned (p ∷ ps) = (drop_stale-Turns p.poll_list p, remove_queues-Turned ps)
