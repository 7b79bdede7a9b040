-- ===== src/Hopa/Progress.antt =====
-- The state of hopa_cp.c and the handlers of its packets. A handler gets what the outer world
-- answers in its course: the buffer that rte_pktmbuf_alloc returns and the time of the clock.
pub mod Invariant
pub mod Probe
pub mod Dispatch
pub mod Returns
use repath.Base.{
  ℕ, zero, suc, ◌+◌, ◌-◌, ◌*◌, ◌^◌, Bool, true, false, Option, none, some, List, [], ◌∷◌, Result,
  ok, ◌>>=◌, ◌>>◌, deref, or_exit, ◌==◌, if◌then◌else◌, to_u8, to_u64, add64, sub64,
}
use repath.Dpdk.{Dpdk, ipproto_udp}
use repath.Dpdk.Ring.{RingOps}
use repath.Hopa.Packet.{
  path_nb, src_port, dst_port_path_1, hopa_cp, hopa_dp, probe_flag, repath_flag, repath_ack_flag,
  HopaCpHdr, Pkt, Timespec,
}
use repath.Hopa.Encode.{nanoseconds, encode_repath_pkt, encode_repath_ack_pkt}
use repath.Hopa.Paths.{get_min_delay_path_id, store_delay, no_delays}
use repath.Hopa.Check.{CurPathInfo, Weigh, one_path_check}

-- struct hopa_in_out_ring; a ring that could not be created is a null pointer.
pub record InOutRing (Q : Type 0) : Type 0 where
  pub hopa_in_ring : Option Q
  pub hopa_out_ring : Option Q

-- The calls made on retran_timer: rte_timer_reset with its ticks, and rte_timer_stop.
pub data TimerCall : Type 0 where
  reset : ℕ → TimerCall
  stop : TimerCall

-- The global variables. The last call on the timer stands first.
pub record Cp (Q : Type 0) : Type 0 where
  pub mbuf_pool : Bool
  pub hopa_in_out_ring_ins : Option (InOutRing Q)
  pub all_paths_delay_list : List ℕ
  pub cur_path_info : Option CurPathInfo
  pub opt_path_id : ℕ
  pub retran_timer : List TimerCall

-- The globals at the start of `main`.
abbrev pub initial : {Q : Type 0} → Cp Q
initial = record {
  mbuf_pool = false;
  hopa_in_out_ring_ins = none;
  all_paths_delay_list = no_delays;
  cur_path_info = none;
  opt_path_id = 0;
  retran_timer = [];
}

-- What the outer world answers while one packet is handled.
pub record Answers : Type 0 where
  pub alloc : Option Pkt
  pub clock : Option Timespec

-- What the program is built on: DPDK, its rings, the timer's frequency and double arithmetic.
pub record Platform (Q : Type 0) : Type 0 where
  pub dpdk : Dpdk HopaCpHdr
  pub ring : RingOps Q Pkt
  pub hz : ℕ
  pub weigh : Weigh

module _ {Q : Type 0} (pf : Platform Q) where
  -- rte_ring_mp_enqueue_burst into hopa_out_ring; the count of what was taken is not looked at.
  pub enqueue_out : Cp Q → List Pkt → Result (Cp Q)
  enqueue_out s mbufs = do
    rings ← deref s.hopa_in_out_ring_ins
    out ← deref rings.hopa_out_ring
    let filled = (pf.ring.enqueue_burst out mbufs).1
    ok (record s { hopa_in_out_ring_ins = some (record rings { hopa_out_ring = some filled }) })

  -- uint8_t path_id = rte_be_to_cpu_16(udp_hdr->dst_port) - DST_PORT_PATH_1
  pub path_of : Pkt → ℕ
  path_of mbuf = to_u8 (pf.dpdk.be_to_cpu_16 mbuf.udp.dst_port + 2 ^ 16 - dst_port_path_1)

  pub hopa_cp_probe_pkt_progress : Cp Q → Pkt → Answers → Result (Cp Q)
  unfolding path_of
  hopa_cp_probe_pkt_progress s mbuf a = do
    let sender_ts = pf.dpdk.be_to_cpu_64 mbuf.cp.ts
    ts ← or_exit a.clock
    let receiver_ts = nanoseconds ts
    delays ←
        store_delay s.all_paths_delay_list (path_of mbuf)
          (add64 (sub64 receiver_ts sender_ts) 1000000000)
    ok (record s {
      all_paths_delay_list = delays;
      opt_path_id = get_min_delay_path_id delays path_nb;
    })

  pub hopa_cp_repath_pkt_progress : Cp Q → Pkt → Answers → Result (Cp Q)
  unfolding enqueue_out
  hopa_cp_repath_pkt_progress s mbuf a = do
    ack ← encode_repath_ack_pkt pf.dpdk s.mbuf_pool a.alloc s.opt_path_id
    t ← enqueue_out s (ack ∷ [])
    ok (record t { retran_timer = reset (to_u64 (pf.hz * 2)) ∷ t.retran_timer })

  pub hopa_cp_repath_ack_pkt_progress : Cp Q → Pkt → Answers → Result (Cp Q)
  hopa_cp_repath_ack_pkt_progress s mbuf a = ok (record s { retran_timer = stop ∷ s.retran_timer })

  pub hopa_dp_ts_pkt_progress : Cp Q → Pkt → Answers → Result (Cp Q)
  unfolding enqueue_out
  hopa_dp_ts_pkt_progress s mbuf a = do
    info ← deref s.cur_path_info
    checked ← one_path_check pf.weigh info
    let t = record s { cur_path_info = some checked.1 }
    let sent = do
      repath_mbuf ←
          encode_repath_pkt pf.dpdk t.mbuf_pool a.alloc t.opt_path_id (to_u8 t.opt_path_id)
      enqueue_out t (repath_mbuf ∷ [])
    if checked.0 then sent else ok t

  -- The body of the loop over a burst in lcore_stats: an unknown cp_flag is only reported.
  pub handle_pkt : Cp Q → Pkt → Answers → Result (Cp Q)
  handle_pkt s mbuf a =
      if mbuf.ipv4.next_proto_id == ipproto_udp
      then if pf.dpdk.be_to_cpu_16 mbuf.udp.src_port == src_port
        then if mbuf.cp.flag == hopa_cp
          then if mbuf.cp.cp_flag == probe_flag
            then hopa_cp_probe_pkt_progress s mbuf a
            else if mbuf.cp.cp_flag == repath_flag
            then hopa_cp_repath_pkt_progress s mbuf a
            else if mbuf.cp.cp_flag == repath_ack_flag
            then hopa_cp_repath_ack_pkt_progress s mbuf a
            else ok s
          else if mbuf.cp.flag == hopa_dp
          then hopa_dp_ts_pkt_progress s mbuf a
          else ok s
        else ok s
      else ok s
