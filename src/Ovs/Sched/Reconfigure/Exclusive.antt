-- ===== src/Ovs/Sched/Reconfigure/Exclusive.antt =====
-- In a hand-over no two threads ever poll the same queue.
use repath.Base.{
  ◌≢◌, ℕ, ◌≡◌, refl, Bool, true, false, Option, none, some, List, [], ◌∷◌, get_elem?, set, All,
  All-set, All-get_elem?, arith, ◌⊎◌, inl, inr, Bool-cases,
}
use repath.Ovs.Sched.{QueueId, PmdThread, NetdevPort}
use repath.Ovs.Sched.Reconfigure.{same_queue, wanted, is_core, has_queue}
use repath.Ovs.Sched.Reconfigure.Handover.{
  Handing, AllFor, Turn, drop, reloads, add, Move, turn, meet, Moves, here, next, Owns, drop-Owns,
  reload-Owns, add-Owns, all_settled, same_queue→eq,
}

-- Before the wait the queues belong to the threads that had them, afterwards to those that are to
-- have them.
module _ (ports : List NetdevPort) (owner : QueueId → Option ℕ) where
  Phased : Handing → Type 0
  Phased s =
      ((s.adding ≡ false) × All (Owns owner) s.pmds)
      ⊎ ((s.adding ≡ true) × All (Owns (wanted ports)) s.pmds)

  set-Phased :
      (s : Handing) (i : ℕ) (pmd pmd' : PmdThread)
      → get_elem? s.pmds i ≡ some pmd
      → (s.adding ≡ false → Owns owner pmd → Owns owner pmd')
      → (s.adding ≡ true → Owns (wanted ports) pmd → Owns (wanted ports) pmd')
      → Phased s
      → Phased (record s { pmds = set s.pmds i pmd' })
  unfolding Phased
  set-Phased s i pmd pmd' at before after (inl (e, all)) = inl (
    e,
    All-set (Owns owner) s.pmds i pmd' (before e (All-get_elem? (Owns owner) s.pmds i all at)) all,
  )
  set-Phased s i pmd pmd' at before after (inr (e, all)) = inr (
    e,
    All-set (Owns (wanted ports)) s.pmds i pmd'
        (after e (All-get_elem? (Owns (wanted ports)) s.pmds i all at)) all,
  )

  turn_before :
      {adding : Bool} {p q : PmdThread}
      → Turn ports adding p q
      → adding ≡ false
      → Owns owner p
      → Owns owner q
  turn_before (drop pmd id e stale) e' o = drop-Owns owner pmd id ports o
  turn_before (reloads pmd) e' o = reload-Owns owner pmd o
  turn_before (add pmd id e mine) e' o = absurd (ground (arith, e, e'))

  turn_after :
      {adding : Bool} {p q : PmdThread}
      → Turn ports adding p q
      → adding ≡ true
      → Owns (wanted ports) p
      → Owns (wanted ports) q
  turn_after (drop pmd id e stale) e' o = absurd (ground (arith, e, e'))
  turn_after (reloads pmd) e' o = reload-Owns (wanted ports) pmd o
  turn_after (add pmd id e mine) e' o = add-Owns (wanted ports) pmd id mine o

  Move-Phased : {s t : Handing} → Move ports s t → Phased s → Phased t
  Move-Phased (turn s i {pmd} {pmd'} at t) h =
      set-Phased s i pmd pmd' at (turn_before t) (turn_after t) h
  Move-Phased (meet s settled) h =
      unfold Phased in
      elim h [
        | inl (e, all) ↦ inr (refl, all_settled owner (wanted ports) s.pmds all settled)
        | inr (e, all) ↦ inr (refl, all)
      ]

  Moves-Phased : {s t : Handing} → Phased s → Moves ports s t → Phased t
  Moves-Phased h here = h
  Moves-Phased h (next moves move) = Move-Phased move (Moves-Phased h moves)

same_core : (o : Option ℕ) (c d : ℕ) → is_core o c ≡ true → is_core o d ≡ true → c ≡ d
same_core none c d h k = cc
same_core (some o) c d h k = ground arith

-- Threads that poll only what belongs to them do not share a queue.
has_queue-AllFor :
    (owner : QueueId → Option ℕ) (core : ℕ) (id : QueueId) (ids : List QueueId)
    → AllFor owner core ids
    → has_queue id ids ≡ true
    → is_core (owner id) core ≡ true
has_queue-AllFor owner core id [] all h = cc
has_queue-AllFor owner core id (q ∷ qs) all h = elim (Bool-cases (same_queue id q)) [
  | inl e ↦ let same : id ≡ q = same_queue→eq id q e in rw same all.0
  | inr e ↦ has_queue-AllFor owner core id qs all.1 (ground (arith, h, e))
]

Owns-exclusive :
    (owner : QueueId → Option ℕ) (id : QueueId) (pmds : List PmdThread) (i j : ℕ) (p q : PmdThread)
    → All (Owns owner) pmds
    → get_elem? pmds i ≡ some p
    → get_elem? pmds j ≡ some q
    → has_queue id p.polling ≡ true
    → has_queue id q.polling ≡ true
    → p.core_id ≡ q.core_id
Owns-exclusive owner id pmds i j p q all at_i at_j has_p has_q =
    let p_owns = All-get_elem? (Owns owner) pmds i all at_i in
    let q_owns = All-get_elem? (Owns owner) pmds j all at_j in
    same_core (owner id) p.core_id q.core_id
      (has_queue-AllFor owner p.core_id id p.polling p_owns.polls has_p)
      (has_queue-AllFor owner q.core_id id q.polling q_owns.polls has_q)

-- From threads that each have and poll only queues of their own, whatever order the threads reload
-- in: at no moment of the hand-over does a thread poll a queue that a thread of another core polls.
pub Moves-exclusive :
    (ports : List NetdevPort) (owner : QueueId → Option ℕ) (id : QueueId) (s t : Handing) (i j : ℕ)
    (p q : PmdThread)
    → s.adding ≡ false
    → All (Owns owner) s.pmds
    → Moves ports s t
    → get_elem? t.pmds i ≡ some p
    → get_elem? t.pmds j ≡ some q
    → p.core_id ≢ q.core_id
    → has_queue id p.polling ≡ true
    → has_queue id q.polling ≡ false
unfolding Phased
Moves-exclusive ports owner id s t i j p q start own moves at_i at_j other has_p =
    elim (Bool-cases (has_queue id q.polling)) [
      | inr none_there ↦ none_there
      | inl has_q ↦ absurd (
          other (elim (Moves-Phased ports owner (inl (start, own)) moves) [
            | inl (e, all) ↦ Owns-exclusive owner id t.pmds i j p q all at_i at_j has_p has_q
            | inr (e, all) ↦
                Owns-exclusive (wanted ports) id t.pmds i j p q all at_i at_j has_p has_q
          ]))
    ]
