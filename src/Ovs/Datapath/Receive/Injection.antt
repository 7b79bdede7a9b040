-- ===== src/Ovs/Datapath/Receive/Injection.antt =====
-- What netdev_dpdk_rxq_recv does to the batch of the port pf1hpf.
use repath.Base.{
  ℕ, ◌+◌, ◌-◌, ◌≤◌, ◌<◌, ◌≡◌, refl, ◌∙◌, ap, true, Option, none, some, List, [], ◌∷◌, fault, length,
  take, arith, to_u16, ◌^◌,
}
use repath.Dpdk.Ring.{IsRing}
use repath.Ovs.Packet.{Pkt, InOutRing, Cp}
use repath.Ovs.Vswitchd.{Platform}
use repath.Ovs.Datapath.Receive.{
  netdev_max_burst, send_slots, Device, copy_control, waiting, inject, netdev_dpdk_rxq_recv,
}

-- The documented bound of rte_eth_rx_burst, and a batch whose slots all point to buffers.
pub record IsDevice (dev : Device) : Type 0 where
  pub burst-le : (n : ℕ) → length (dev.rx_burst n) ≤ n
  pub slots : (i : ℕ) → dev.has_buffer i ≡ true

-- How many packets the port is asked for.
abbrev asked : ℕ → ℕ
asked nb_cp = to_u16 (netdev_max_burst + 2 ^ 16 - nb_cp)

take_all {ℓ} : {A : Type ℓ} (xs : List A) → take (length xs) xs ≡ xs
take_all [] = refl
take_all (x ∷ xs) = ap (◌∷◌ x) (take_all xs)

module _ {I O : Type 0} (pf : Platform I O) (dev : Device) (s : Cp I O) (rings : InOutRing I O)
    (out : O) (ring : IsRing pf.out_ops) (r : s.m_hopa_cp_in_out_ring ≡ some rings)
    (o : rings.hopa_cp_out_ring ≡ some out) where
  waiting-eq : waiting pf s ≡ length (pf.out_ops.contents out)
  unfolding waiting
  waiting-eq = ground arith

  dequeued : (pf.out_ops.dequeue_burst out (waiting pf s)).0 ≡ pf.out_ops.contents out
  dequeued =
      ring.dequeue_lem out (waiting pf s)
      ∙ ap (λ (n : ℕ). take n (pf.out_ops.contents out)) waiting-eq
      ∙ take_all (pf.out_ops.contents out)

  -- On a port pf1hpf that is up, more waiting buffers than the array has slots are written past its
  -- end.
  pub rxq_recv-overflow :
      dev.is_up ≡ true
      → dev.is_pf1hpf ≡ true
      → send_slots < length (pf.out_ops.contents out)
      → netdev_dpdk_rxq_recv pf dev s ≡ fault
  unfolding netdev_dpdk_rxq_recv inject
  rxq_recv-overflow up name h = ground (arith, waiting-eq, ap length dequeued)

  inject-null :
      (mbufs : List (Option Pkt))
      → ((i : ℕ) → dev.has_buffer i ≡ true)
      → pf.out_ops.contents out ≡ none ∷ mbufs
      → inject pf dev s (waiting pf s) ≡ fault
  unfolding inject copy_control
  inject-null mbufs slots h =
      ground (arith, dequeued, slots (length (dev.rx_burst (asked (waiting pf s)))))

  -- A null pointer at the head of the waiting buffers is followed.
  pub rxq_recv-null :
      (mbufs : List (Option Pkt))
      → dev.is_up ≡ true
      → dev.is_pf1hpf ≡ true
      → ((i : ℕ) → dev.has_buffer i ≡ true)
      → pf.out_ops.contents out ≡ none ∷ mbufs
      → netdev_dpdk_rxq_recv pf dev s ≡ fault
  unfolding netdev_dpdk_rxq_recv
  rxq_recv-null mbufs up name slots h =
      ground (arith, waiting-eq, ap length h, inject-null mbufs slots h)
