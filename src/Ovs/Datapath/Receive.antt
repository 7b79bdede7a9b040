-- ===== src/Ovs/Datapath/Receive.antt =====
-- netdev_dpdk_rxq_recv of netdev-dpdk.c: a burst of the port, and on the port pf1hpf the buffers of
-- the sending thread behind it. The port's receive burst, its queue and the policer are arguments.
pub mod Injection
use repath.Base.{
  ℕ, zero, suc, ◌+◌, ◌-◌, ◌^◌, ◌≤◌, ◌≡◌, Bool, true, false, ◌&&◌, not, Option, none, some, List, [],
  ◌∷◌, ◌++◌, Result, ok, ◌>>=◌, ◌>>◌, deref, defined, ltb, leb, ◌==◌, if◌then◌else◌, length, to_u16,
}
use repath.Dpdk.Ring.{RingOps}
use repath.Ovs.Packet.{Pkt, InOutRing, Cp}
use repath.Ovs.Vswitchd.{Platform}

-- NETDEV_MAX_BURST, and the length of the array hopa_cp_send_mbuf.
abbrev pub netdev_max_burst : ℕ
netdev_max_burst = 32

abbrev pub send_slots : ℕ
send_slots = 32

-- The device, its receive queue and the batch that is to be filled.
pub record Device : Type 0 where
  -- dev->flags & NETDEV_UP
  pub is_up : Bool
  -- the device's name is pf1hpf
  pub is_pf1hpf : Bool
  -- what rte_eth_rx_burst returns when it is asked for so many
  pub rx_burst : ℕ → List Pkt
  -- ingress_policer_run, if the device has a policer: the packets that it lets through
  pub policer : Option (List Pkt → List Pkt)
  -- rte_eth_rx_queue_count
  pub rx_queue_count : ℕ
  -- whether the pointer that lies in a slot of the batch that the burst has not filled points to a
  -- buffer
  pub has_buffer : ℕ → Bool
  pub rx_dropped : ℕ

-- What the call comes to: EAGAIN, or the packets of the batch, *qfill and the device's count of
-- drops.
pub data Received : Type 0 where
  eagain : Received
  batch : (packets : List Pkt) (qfill : ℕ) (rx_dropped : ℕ) → Received

-- *hopa_cp_send_mbuf[i], copied into the buffer of the slot i + nb_rx.
pub copy_control : Device → ℕ → List (Option Pkt) → Result (List Pkt)
copy_control dev slot [] = ok []
copy_control dev slot (mbuf ∷ mbufs) = do
  defined (dev.has_buffer slot)
  pkt ← deref mbuf
  pkts ← copy_control dev (slot + 1) mbufs
  ok (pkt ∷ pkts)

-- The policer and the counters, for a caller that asks for qfill. The two counts of drops,
-- rx_dropped and rx_qos_drops, grow alike: the model has the first.
pub police : Device → List Pkt → Received
police dev packets =
    let kept : List Pkt = elim dev.policer [ none ↦ packets | some run ↦ run packets ] in
    if length packets == 0
    then eagain
    else batch kept (if length kept == netdev_max_burst then dev.rx_queue_count else 0)
        (dev.rx_dropped + (length packets - length kept))

module _ {I O : Type 0} (pf : Platform I O) where
  -- The number of buffers that wait in the outgoing ring, by rte_ring_count.
  pub waiting : Cp I O → ℕ
  waiting s = elim s.m_hopa_cp_in_out_ring [
    | none ↦ 0
    | some rings ↦ elim rings.hopa_cp_out_ring [
      | none ↦ 0
      | some out ↦ length (pf.out_ops.contents out)
    ]
  ]

  -- The port's burst, cut short by `nb_cp`, and the `nb_cp` waiting buffers behind it. The burst's
  -- length is passed as a uint16_t. The dequeue writes `nb_cp` pointers into an array.
  pub inject : Device → Cp I O → ℕ → Result (Cp I O × List Pkt)
  inject dev s nb_cp = do
    let received = dev.rx_burst (to_u16 (netdev_max_burst + 2 ^ 16 - nb_cp))
    rings ← deref s.m_hopa_cp_in_out_ring
    out ← deref rings.hopa_cp_out_ring
    let (mbufs, rest) = pf.out_ops.dequeue_burst out nb_cp
    defined (leb (length mbufs) send_slots)
    control ← copy_control dev (length received) mbufs
    ok (
      record s { m_hopa_cp_in_out_ring = some (record rings { hopa_cp_out_ring = some rest }) },
      received ++ control,
    )

  pub netdev_dpdk_rxq_recv : Device → Cp I O → Result (Cp I O × Received)
  unfolding police
  netdev_dpdk_rxq_recv dev s =
      let plain = ok (s, police dev (dev.rx_burst netdev_max_burst)) in
      let injected = inject dev s (waiting s) >>= λ r. ok (r.0, police dev r.1) in
      if not dev.is_up
      then ok (s, eagain)
      else if not dev.is_pf1hpf
      then plain
      else if waiting s == 0
      then plain
      else injected
