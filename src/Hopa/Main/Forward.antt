-- ===== src/Hopa/Main/Forward.antt =====
-- The loop of main in hopa_cp.c: packets from the port to the incoming ring, and from the outgoing
-- ring to the port. rte_eth_tx_burst may take fewer packets than it is offered.
use repath.Base.{
  ℕ, zero, suc, ◌+◌, ◌-◌, ◌*◌, ◌≤◌, ◌<◌, ◌≡◌, ◌≢◌, refl, sym, ap, ◌∙◌, Option, none, some, List, [],
  ◌∷◌, ◌++◌, Result, ok, ◌>>=◌, deref, take, drop, length, ltb, ◌==◌, if◌then◌else◌, arith,
  take-append-drop, length-drop, length-take,
}
use mathlib.Core.List.{flatten, append-nil}
use native.Mathlib.Decide.{ℕ_discrete}
use repath.Dpdk.Ring.{IsRing}
use repath.Hopa.Packet.{burst_size, Pkt}
use repath.Hopa.Progress.{Cp, Platform}

-- `tx n k` is how many of `k` packets rte_eth_tx_burst takes at its call number `n`.
pub record Nic : Type 0 where
  pub tx : ℕ → ℕ → ℕ

-- It takes no more than it is offered. A full transmit queue takes none, but not for ever: `wait n`
-- is the number of calls from the n-th on that take nothing, and is below `patience`.
pub record IsNic (nic : Nic) : Type 0 where
  pub wait : ℕ → ℕ
  pub patience : ℕ
  pub tx-le : (n k : ℕ) → nic.tx n k ≤ k
  pub wait-lt : (n : ℕ) → wait n < patience
  pub tx_pos : (n k : ℕ) → wait n ≡ 0 → 0 < k → 0 < nic.tx n k
  pub wait_next : (n : ℕ) → 0 < wait n → wait n ≡ wait (n + 1) + 1

add_burst : List Pkt → Option (List (List Pkt)) → Option (List (List Pkt))
add_burst burst none = none
add_burst burst (some bursts) = some (burst ∷ bursts)

-- The loop `while (offset < total_num)` over the packets from `offset` on, at call number `n`: what
-- the port took, call by call. `none` means that the fuel ran out.
pub tx_loop : Nic → ℕ → ℕ → List Pkt → Option (List (List Pkt))
unfolding add_burst
tx_loop nic zero n pending = none
tx_loop nic (suc fuel) n pending =
    let taken = nic.tx n (length pending) in
    let rest = add_burst (take taken pending) (tx_loop nic fuel (n + 1) (drop taken pending)) in
    if length pending == 0 then some [] else rest

-- A round of main's loop: the packets of rte_eth_rx_burst go to the incoming ring, as far as it
-- takes them, and at most 32 of the outgoing ring go to the port.
unfoldable pub main_round :
    {Q : Type 0}
    → Platform Q
    → Nic
    → ℕ
    → ℕ
    → List Pkt
    → Cp Q
    → Result (Cp Q × Option (List (List Pkt)))
main_round pf nic fuel n received s = do
  rings ← deref s.hopa_in_out_ring_ins
  let enqueue = do
    q ← deref rings.hopa_in_ring
    ok (record rings { hopa_in_ring = some (pf.ring.enqueue_burst q received).1 })
  filled ← if ltb 0 (length received) then enqueue else ok rings
  out ← deref filled.hopa_out_ring
  let (send, left) = pf.ring.dequeue_burst out burst_size
  ok (
    record s { hopa_in_out_ring_ins = some (record filled { hopa_out_ring = some left }) },
    tx_loop nic fuel n send,
  )

length_of_zero : (xs : List Pkt) → length xs ≡ 0 → xs ≡ []
length_of_zero [] e = refl
length_of_zero (x ∷ xs) e = absurd (omega arith)

mul_shrink : (l k t p : ℕ) → l ≡ k + t → 0 < t → k * p + p ≤ l * p
mul_shrink l k t p e h = grind arith

module _ (nic : Nic) (good : IsNic nic) where
  -- A call either takes something or brings the next success nearer.
  progress :
      (n : ℕ) (pending : List Pkt)
      → length pending ≢ 0
      → length (drop (nic.tx n (length pending)) pending) * good.patience + good.wait (n + 1)
        < length pending * good.patience + good.wait n
  progress n pending h =
      let l = length pending in
      let t = nic.tx n l in
      elim (ℕ_discrete (good.wait n) 0) [
        | yes e ↦ omega (
          arith,
          length-drop t pending,
          mul_shrink l (l - t) t good.patience (omega (arith, good.tx-le n l))
              (good.tx_pos n l e (omega arith)),
          good.wait-lt (n + 1),
          ap (λ (k : ℕ). k * good.patience) (length-drop t pending),
        )
        | no ne ↦ grind (arith, length-drop t pending, good.wait_next n)
      ]

  -- With fuel for `patience` calls a packet the loop ends, and the bursts that the port took are
  -- the packets, each once and in order.
  tx_loop-flatten :
      (fuel n : ℕ) (pending : List Pkt)
      → length pending * good.patience + good.wait n < fuel
      → (bursts : List (List Pkt)) × (tx_loop nic fuel n pending ≡ some bursts)
        × (flatten bursts ≡ pending)
  unfolding tx_loop flatten
  tx_loop-flatten zero n pending h = absurd (omega arith)
  tx_loop-flatten (suc fuel) n pending h = elim (ℕ_discrete (length pending) 0) [
    | yes e ↦ ([], ground arith, sym (length_of_zero pending e))
    | no ne ↦
        let t = nic.tx n (length pending) in
        let (bursts, runs, whole) =
          tx_loop-flatten fuel (n + 1) (drop t pending) (omega (arith, progress n pending ne)) in
        (
          take t pending ∷ bursts,
          ground (arith, runs),
          ap (◌++◌ (take t pending)) whole ∙ take-append-drop t pending,
        )
  ]

burst_fuel : (l p w : ℕ) → l ≤ 32 → w < p → l * p + w < 33 * p
burst_fuel l p w h k = grind arith

-- The burst that a round takes from the outgoing ring is sent whole.
burst_sent :
    {Q : Type 0} (pf : Platform Q) (nic : Nic) (n : ℕ) (out : Q) (ring : IsRing pf.ring)
    (good : IsNic nic)
    → let send = (pf.ring.dequeue_burst out burst_size).0 in
      (bursts : List (List Pkt)) × (tx_loop nic (33 * good.patience) n send ≡ some bursts)
      × (flatten bursts ≡ take burst_size (pf.ring.contents out))
burst_sent pf nic n out ring good =
    let send = (pf.ring.dequeue_burst out burst_size).0 in
    let short : length send ≤ 32 = omega (
      arith,
      ap length (ring.dequeue_lem out burst_size),
      length-take burst_size (pf.ring.contents out),
    ) in
    let (bursts, runs, whole) =
      tx_loop-flatten nic good (33 * good.patience) n send
        (burst_fuel (length send) good.patience (good.wait n) short (good.wait-lt n)) in
    (bursts, runs, whole ∙ ring.dequeue_lem out burst_size)

pub main_round_lem :
    {Q : Type 0} (pf : Platform Q) (nic : Nic) (n : ℕ) (received : List Pkt) (s : Cp Q) (q out : Q)
    (ring : IsRing pf.ring) (good : IsNic nic)
    → s.hopa_in_out_ring_ins ≡ some (record { hopa_in_ring = some q; hopa_out_ring = some out })
    → (s' : Cp Q) × (q' : Q) × (out' : Q) × (taken : ℕ) × (bursts : List (List Pkt)) × (main_round
          pf nic
          (33 * good.patience)
          n
          received
          s
        ≡ ok (s', some bursts))
      × (s' ≡ record s {
        hopa_in_out_ring_ins = some (record { hopa_in_ring = some q'; hopa_out_ring = some out' });
      })
      × (pf.ring.contents q' ≡ pf.ring.contents q ++ take taken received)
      × (pf.ring.contents out' ≡ drop burst_size (pf.ring.contents out))
      × (flatten bursts ≡ take burst_size (pf.ring.contents out))
unfolding main_round
main_round_lem pf nic n [] s q out ring good e =
    let (bursts, runs, whole) = burst_sent pf nic n out ring good in
    (
      _,
      q,
      (pf.ring.dequeue_burst out burst_size).1,
      0,
      bursts,
      rw e (rw runs),
      refl,
      sym (append-nil (pf.ring.contents q)),
      ring.contents-dequeue out burst_size,
      whole,
    )
main_round_lem pf nic n (m ∷ received) s q out ring good e =
    let (bursts, runs, whole) = burst_sent pf nic n out ring good in
    (
      record s {
        hopa_in_out_ring_ins = some (record {
          hopa_in_ring = some (pf.ring.enqueue_burst q (m ∷ received)).1;
          hopa_out_ring = some (pf.ring.dequeue_burst out burst_size).1;
        });
      },
      (pf.ring.enqueue_burst q (m ∷ received)).1,
      (pf.ring.dequeue_burst out burst_size).1,
      (pf.ring.enqueue_burst q (m ∷ received)).0,
      bursts,
      ground (arith, runs, e),
      refl,
      ring.contents-enqueue q (m ∷ received),
      ring.contents-dequeue out burst_size,
      whole,
    )
