-- ===== src/Ovs/Sched/Reconfigure/Handover.antt =====
-- The hand-over as a protocol between reconfigure_datapath and the threads, which reload whenever
-- they see the flag: queues are taken away, then all threads have reloaded, then queues are added.
use repath.Base.{
  ℕ, ◌≡◌, refl, sym, Bool, true, false, Option, some, List, [], ◌∷◌, length, ◌==◌, get_elem?, set,
  All, arith, ◌⊎◌, inl, inr, Bool-cases, ◌&&◌,
}
use mathlib.Core.Path.{subst}
use repath.Ovs.Sched.{QueueId, PmdThread, NetdevPort}
use repath.Ovs.Sched.Reconfigure.{
  same_queue, wanted, is_core, without, has_queue, dp_netdev_del_rxq_from_pmd,
  dp_netdev_add_rxq_to_pmd, note_wait, reload, is_busy,
}

-- The threads, and whether reconfigure_datapath is past the wait between the steps 5 and 6.
pub record Handing : Type 0 where
  pub adding : Bool
  pub pmds : List PmdThread

-- Every queue of the list belongs to the core.
abbrev pub AllFor : (QueueId → Option ℕ) → ℕ → List QueueId → Type 0
AllFor owner core ids = All (λ id. is_core (owner id) core ≡ true) ids

-- A thread has reloaded, and its poll_list has only queues that it is to poll.
abbrev pub IsSettled : (QueueId → Option ℕ) → PmdThread → Type 0
IsSettled owner pmd = (pmd.need_reload ≡ false) × AllFor owner pmd.core_id pmd.poll_list

module _ (ports : List NetdevPort) where
  -- What happens to one thread: it loses a queue that is not meant for it, before the wait; it
  -- gets one that is, after it; and at any time it may reload.
  pub data Turn (adding : Bool) : PmdThread → PmdThread → Type 0 where
    drop :
        (pmd : PmdThread) (id : QueueId)
        → adding ≡ false
        → is_core (wanted ports id) pmd.core_id ≡ false
        → Turn adding pmd (note_wait ports (dp_netdev_del_rxq_from_pmd id pmd))
    reloads : (pmd : PmdThread) → Turn adding pmd (reload pmd)
    add :
        (pmd : PmdThread) (id : QueueId)
        → adding ≡ true
        → is_core (wanted ports id) pmd.core_id ≡ true
        → Turn adding pmd (dp_netdev_add_rxq_to_pmd id pmd)

  pub data Move : Handing → Handing → Type 0 where
    turn :
        (s : Handing) (i : ℕ) {pmd pmd' : PmdThread}
        → get_elem? s.pmds i ≡ some pmd
        → Turn s.adding pmd pmd'
        → Move s (record s { pmds = set s.pmds i pmd' })
    meet :
        (s : Handing) → All (IsSettled (wanted ports)) s.pmds → Move s (record s { adding = true })

  pub data Moves (s : Handing) : Handing → Type 0 where
    here : Moves s s
    next : {t u : Handing} → Moves s t → Move t u → Moves s u

-- A thread has, and polls, only queues that belong to it; it polls what it has, or is to reload.
pub record Owns (owner : QueueId → Option ℕ) (pmd : PmdThread) : Type 0 where
  pub has : AllFor owner pmd.core_id pmd.poll_list
  pub polls : AllFor owner pmd.core_id pmd.polling
  pub agrees : (pmd.need_reload ≡ true) ⊎ (pmd.polling ≡ pmd.poll_list)

AllFor-without :
    (owner : QueueId → Option ℕ) (core : ℕ) (id : QueueId) (ids : List QueueId)
    → AllFor owner core ids
    → AllFor owner core (without id ids)
unfolding without
AllFor-without owner core id [] all = tt
AllFor-without owner core id (q ∷ qs) all = elim (Bool-cases (same_queue id q)) [
  | inl e ↦ rw e (AllFor-without owner core id qs all.1)
  | inr e ↦ rw e (all.0, AllFor-without owner core id qs all.1)
]

pub reload-Owns :
    (owner : QueueId → Option ℕ) (pmd : PmdThread) → Owns owner pmd → Owns owner (reload pmd)
unfolding reload
reload-Owns owner pmd o = record { has = o.has; polls = o.has; agrees = inr refl }

module _ (owner : QueueId → Option ℕ) (pmd : PmdThread) (id : QueueId) where
  pub drop-Owns :
      (ports : List NetdevPort)
      → Owns owner pmd
      → Owns owner (note_wait ports (dp_netdev_del_rxq_from_pmd id pmd))
  unfolding note_wait dp_netdev_del_rxq_from_pmd
  drop-Owns ports o =
      let has = AllFor-without owner pmd.core_id id pmd.poll_list o.has in
      elim (Bool-cases (length (without id pmd.poll_list) == 0 && is_busy ports pmd.core_id)) [
        | inl e ↦ rw e (record { has = has; polls = o.polls; agrees = inl refl })
        | inr e ↦ rw e (record { has = has; polls = o.polls; agrees = inl refl })
      ]

  pub add-Owns :
      is_core (owner id) pmd.core_id ≡ true
      → Owns owner pmd
      → Owns owner (dp_netdev_add_rxq_to_pmd id pmd)
  unfolding dp_netdev_add_rxq_to_pmd
  add-Owns mine o = elim (Bool-cases (has_queue id pmd.poll_list)) [
    | inl e ↦ rw e o
    | inr e ↦ rw e (record { has = (mine, o.has); polls = o.polls; agrees = inl refl })
  ]

Owns-settled :
    (owner settled : QueueId → Option ℕ) (pmd : PmdThread)
    → Owns owner pmd
    → IsSettled settled pmd
    → Owns settled pmd
Owns-settled owner settled pmd o (reloaded, mine) = record {
  has = mine;
  polls = same o.agrees;
  agrees = o.agrees;
}
  where
    same :
        (pmd.need_reload ≡ true) ⊎ (pmd.polling ≡ pmd.poll_list)
        → AllFor settled pmd.core_id pmd.polling
    same (inl stale) = absurd (ground (arith, stale, reloaded))
    same (inr e) = subst (AllFor settled pmd.core_id) (sym e) mine

pub all_settled :
    (owner settled : QueueId → Option ℕ) (pmds : List PmdThread)
    → All (Owns owner) pmds
    → All (IsSettled settled) pmds
    → All (Owns settled) pmds
all_settled owner settled [] o h = tt
all_settled owner settled (pmd ∷ pmds) o h =
    (Owns-settled owner settled pmd o.0 h.0, all_settled owner settled pmds o.1 h.1)

pub same_queue→eq : (a b : QueueId) → same_queue a b ≡ true → a ≡ b
same_queue→eq a b h = ground arith
