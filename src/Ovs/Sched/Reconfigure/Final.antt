-- ===== src/Ovs/Sched/Reconfigure/Final.antt =====
-- The steps 5 and 6 of reconfigure_datapath as a run of the hand-over.
use repath.Base.{
  ℕ, ◌≡◌, refl, sym, true, false, none, some, List, [], ◌∷◌, length, ◌==◌, ==_iff, if◌then◌else◌,
  if_true, if_false, All, arith, ◌⊎◌, inl, inr, Bool-cases, Option-cases, ◌&&◌,
}
use mathlib.Core.Path.{subst}
use repath.Ovs.Sched.{QueueId, PmdThread, Rxq, NetdevPort}
use repath.Ovs.Sched.Assign.{pmd_rxqs}
use repath.Ovs.Sched.Reconfigure.{
  id_of, same_queue, wanted, is_core, has_queue, without, note_wait, is_busy, drop_stale,
  remove_queues, reload, reload_affected_pmds, dp_netdev_del_rxq_from_pmd, add_to_core, add_rxq,
  add_rxqs,
}
use repath.Ovs.Sched.Reconfigure.Handover.{
  AllFor, IsSettled, add, meet, Moves, here, next, same_queue→eq,
}
use repath.Ovs.Sched.Reconfigure.Moves.{
  Moves-trans, rest, then_turn, Turned, Turned-refl, Turned-Moves, reload_affected_pmds-Turned,
  remove_queues-Turned,
}

module _ (ports : List NetdevPort) where
  -- A queue is meant for the core, or is still to be looked at.
  abbrev Pending : ℕ → List QueueId → QueueId → Type 0
  Pending core ids q = (is_core (wanted ports q) core ≡ true) ⊎ (has_queue q ids ≡ true)

  Pending-mine :
      (core : ℕ) (id : QueueId) (ids qs : List QueueId)
      → is_core (wanted ports id) core ≡ true
      → All (Pending core (id ∷ ids)) qs
      → All (Pending core ids) qs
  Pending-mine core id ids [] mine all = tt
  Pending-mine core id ids (q ∷ qs) mine all =
      (first all.0 (Bool-cases (same_queue q id)), Pending-mine core id ids qs mine all.1)
    where
      first :
          Pending core (id ∷ ids) q
          → (same_queue q id ≡ true) ⊎ (same_queue q id ≡ false)
          → Pending core ids q
      first (inl h) e = inl h
      first (inr h) (inl e) =
          inl (subst (λ r. is_core (wanted ports r) core ≡ true) (sym (same_queue→eq q id e)) mine)
      first (inr h) (inr e) = inr (ground (arith, h, e))

  Pending-without :
      (core : ℕ) (id : QueueId) (ids qs : List QueueId)
      → All (Pending core (id ∷ ids)) qs
      → All (Pending core ids) (without id qs)
  unfolding without
  Pending-without core id ids [] all = tt
  Pending-without core id ids (q ∷ qs) all = elim (Bool-cases (same_queue id q)) [
    | inl e ↦ rw e (Pending-without core id ids qs all.1)
    | inr e ↦ rw e (later all.0 e, Pending-without core id ids qs all.1)
  ]
    where
      later : Pending core (id ∷ ids) q → same_queue id q ≡ false → Pending core ids q
      later (inl h) e = inl h
      later (inr h) e = inr (ground (arith, h, e))

  Pending-none :
      (core : ℕ) (qs : List QueueId) → All (Pending core []) qs → AllFor (wanted ports) core qs
  Pending-none core [] all = tt
  Pending-none core (q ∷ qs) all = (ground (arith, all.0), Pending-none core qs all.1)

  Pending-dropped :
      (id : QueueId) (ids : List QueueId) (p : PmdThread)
      → All (Pending p.core_id (id ∷ ids)) p.poll_list
      → All
          (Pending (note_wait ports (dp_netdev_del_rxq_from_pmd id p)).core_id ids)
          (note_wait ports (dp_netdev_del_rxq_from_pmd id p)).poll_list
  unfolding note_wait dp_netdev_del_rxq_from_pmd
  Pending-dropped id ids p all =
      let left = Pending-without p.core_id id ids p.poll_list all in
      elim (Bool-cases (length (without id p.poll_list) == 0 && is_busy ports p.core_id)) [
        | inl e ↦ rw e left
        | inr e ↦ rw e left
      ]

  -- A thread after step 5 has only queues that it is to have.
  drop_stale-AllFor :
      (ids : List QueueId) (p : PmdThread)
      → All (Pending p.core_id ids) p.poll_list
      → AllFor (wanted ports) (drop_stale ports ids p).core_id (drop_stale ports ids p).poll_list
  unfolding drop_stale
  drop_stale-AllFor [] p all = Pending-none p.core_id p.poll_list all
  drop_stale-AllFor (id ∷ ids) p all = elim (Bool-cases (is_core (wanted ports id) p.core_id)) [
    | inl mine ↦
        subst Kept (sym (if_true _ p _ mine))
          (drop_stale-AllFor ids p (Pending-mine p.core_id id ids p.poll_list mine all))
    | inr stale ↦ subst Kept (sym (if_false _ p _ stale)) (
        drop_stale-AllFor ids (note_wait ports (dp_netdev_del_rxq_from_pmd id p))
          (Pending-dropped id ids p all))
  ]
    where
      Kept : PmdThread → Type 0
      Kept r =
          AllFor (wanted ports) (drop_stale ports ids r).core_id (drop_stale ports ids r).poll_list

  Pending-all :
      (core : ℕ) (ids qs : List QueueId)
      → ((q : QueueId) → has_queue q qs ≡ true → has_queue q ids ≡ true)
      → All (Pending core ids) qs
  Pending-all core ids [] sub = tt
  Pending-all core ids (q ∷ qs) sub =
      (inr (sub q (ground arith)), Pending-all core ids qs (λ r h. sub r (ground (arith, h))))

  IsSettled-threads :
      (ps : List PmdThread)
      → All (IsSettled (wanted ports)) (reload_affected_pmds (remove_queues ports ps))
  unfolding reload_affected_pmds remove_queues
  IsSettled-threads [] = tt
  IsSettled-threads (p ∷ ps) = (
    settled (drop_stale ports p.poll_list p) (Bool-cases _) (
        drop_stale-AllFor p.poll_list p (Pending-all p.core_id p.poll_list p.poll_list (λ q h. h))),
    IsSettled-threads ps,
  )
    where
      settled :
          (r : PmdThread)
          → (r.need_reload ≡ true) ⊎ (r.need_reload ≡ false)
          → AllFor (wanted ports) r.core_id r.poll_list
          → IsSettled (wanted ports) (if r.need_reload then reload r else r)
      settled r (inl e) h =
          subst (IsSettled (wanted ports)) (sym (if_true r.need_reload (reload r) r e))
            (unfold reload in (refl, h))
      settled r (inr e) h =
          subst (IsSettled (wanted ports)) (sym (if_false r.need_reload (reload r) r e)) (e, h)

  -- Step 6 for one queue.
  add_to_core-Turned :
      (core : ℕ) (id : QueueId) (ps : List PmdThread)
      → is_core (wanted ports id) core ≡ true
      → Turned ports true ps (add_to_core core id ps)
  unfolding Turned add_to_core
  add_to_core-Turned core id [] mine = tt
  add_to_core-Turned core id (p ∷ ps) mine = elim (Bool-cases (p.core_id == core)) [
    | inl e ↦
        let same : core ≡ p.core_id = sym ((==_iff _ _).0 e) in
        subst (Turned ports true (p ∷ ps)) (sym (if_true _ _ _ e)) (
          then_turn rest
              (add p id refl (subst (λ c. is_core (wanted ports id) c ≡ true) same mine)),
          Turned-refl ports true ps,
        )
    | inr e ↦
        subst (Turned ports true (p ∷ ps)) (sym (if_false _ _ _ e))
          (rest, add_to_core-Turned core id ps mine)
  ]

  -- The queue that is found by the name of a queue is the queue itself.
  abbrev pub IsFound : Rxq → Type 0
  IsFound rxq = wanted ports (id_of rxq) ≡ rxq.pmd

  add_rxqs-Moves :
      (rxqs : List Rxq) (ps : List PmdThread)
      → All IsFound rxqs
      → Moves ports
          (record { adding = true; pmds = ps })
          (record { adding = true; pmds = add_rxqs rxqs ps })
  unfolding add_rxqs
  add_rxqs-Moves [] ps found = here
  add_rxqs-Moves (rxq ∷ rxqs) ps found =
      Moves-trans (Turned-Moves ports true [] ps (add_rxq rxq ps) (added (Option-cases rxq.pmd)))
        (add_rxqs-Moves rxqs (add_rxq rxq ps) found.1)
    where
      added :
          (rxq.pmd ≡ none) ⊎ ((core : ℕ) × (rxq.pmd ≡ some core))
          → Turned ports true ps (add_rxq rxq ps)
      added (inl e) =
          let shape : add_rxq rxq ps ≡ ps = unfold add_rxq in ground (arith, e) in
          rw shape (Turned-refl ports true ps)
      added (inr (core, e)) =
          let shape : add_rxq rxq ps ≡ add_to_core core (id_of rxq) ps =
            unfold add_rxq in ground (arith, e) in
          rw shape (add_to_core-Turned core (id_of rxq) ps (ground (arith, found.0, e)))

  -- Where the ports have no two queues of the same name, the steps 5 and 6 are a run of the
  -- hand-over: first the threads lose what they are not to have, one queue at a time, then all have
  -- reloaded, and then they get what they are to have.
  pub steps-Moves :
      (ps : List PmdThread)
      → All IsFound (pmd_rxqs ports)
      → Moves ports
          (record { adding = false; pmds = ps })
          (record {
            adding = true;
            pmds =
                reload_affected_pmds
                  (add_rxqs (pmd_rxqs ports) (reload_affected_pmds (remove_queues ports ps)));
          })
  steps-Moves ps found =
      let removed = remove_queues ports ps in
      let settled = reload_affected_pmds removed in
      let given = add_rxqs (pmd_rxqs ports) settled in
      Moves-trans (Turned-Moves ports false [] ps removed (remove_queues-Turned ports ps)) (
        Moves-trans
          (Turned-Moves ports false [] removed settled
            (reload_affected_pmds-Turned ports false removed))
          (Moves-trans
            (next here (meet (record { adding = false; pmds = settled }) (IsSettled-threads ps)))
            (Moves-trans (add_rxqs-Moves (pmd_rxqs ports) settled found) (
              Turned-Moves ports true [] given (reload_affected_pmds given)
                (reload_affected_pmds-Turned ports true given)))))
