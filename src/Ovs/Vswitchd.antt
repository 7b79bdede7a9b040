-- ===== src/Ovs/Vswitchd.antt =====
-- ovs-vswitchd.c of both trees: the two threads of the control plane. Logging and sleeping are left
-- out.
pub mod Progress
use repath.Base.{
  ℕ, zero, suc, ◌+◌, ◌-◌, ◌*◌, ◌^◌, Bool, true, false, Option, none, some, List, [], ◌∷◌, ◌++◌,
  Result, ok, ◌>>=◌, ◌>>◌, deref, defined, ltb, leb, ◌==◌, if◌then◌else◌, not, get_or, length, set,
  fault, to_u8, to_u16, to_u64, add64, sub64,
}
use repath.Dpdk.{
  Dpdk, EthHdr, Ipv4Hdr, UdpHdr, Mbuf, ether_hdr_size, ipv4_hdr_size, udp_hdr_size, ether_type_ipv4,
  ipproto_udp,
}
use repath.Dpdk.Ring.{RingOps}
use repath.Ovs.Packet.{
  path_nb, src_port, dst_port, hopa_cp, probe_flag, repath_flag, repath_ack_flag, Site, HopaCpHdr,
  hopa_cp_hdr_size, Pkt, InOutRing, Cp,
}
use repath.Ovs.Encode.{Timespec, nanoseconds, encode_probe_pkt, encode_repath_pkt}

-- What the threads are built on.
pub record Platform (I O : Type 0) : Type 0 where
  pub dpdk : Dpdk HopaCpHdr
  pub in_ops : RingOps I HopaCpHdr
  pub out_ops : RingOps O (Option Pkt)
  pub site : Site

-- hopa_cp_init, called on every round of the main loop. What it meets: the time, its start, and
-- what the allocations return. A pool or a ring that is null is only reported.
pub record InitAnswers (I O : Type 0) : Type 0 where
  pub time : ℕ
  pub start_time : ℕ
  pub pool : Bool
  pub malloc : Bool
  pub in_ring : Option I
  pub out_ring : Option O

pub hopa_cp_init : {I O : Type 0} → InitAnswers I O → Cp I O → Result (Cp I O)
hopa_cp_init a s =
    let created = do
      defined a.malloc
      ok (record s {
        hopa_cp_mp = a.pool;
        m_hopa_cp_in_out_ring =
            some (record { hopa_cp_in_ring = a.in_ring; hopa_cp_out_ring = a.out_ring });
        threads = true;
        hopa_cp_has_init = true;
      })
    in if s.hopa_cp_has_init then ok s else if leb a.time a.start_time then ok s else created

-- get_min_delay_path_id, whose index and length are 8 bits wide.
pub min_delay_from : List ℕ → ℕ → ℕ → ℕ → ℕ
min_delay_from delays zero i path_id = path_id
min_delay_from delays (suc rounds) i path_id =
    min_delay_from delays rounds (to_u8 (i + 1))
      (if ltb (get_or delays i 0) (get_or delays path_id 0) then i else path_id)

pub get_min_delay_path_id : List ℕ → ℕ → ℕ
unfolding min_delay_from
get_min_delay_path_id all_paths_delay_list length =
    min_delay_from all_paths_delay_list (length - 1) 1 0

module _ {I O : Type 0} (pf : Platform I O) where
  pub enqueue_out : Cp I O → List (Option Pkt) → Result (Cp I O)
  enqueue_out s mbufs = do
    rings ← deref s.m_hopa_cp_in_out_ring
    out ← deref rings.hopa_cp_out_ring
    let filled = (pf.out_ops.enqueue_burst out mbufs).1
    ok (record s { m_hopa_cp_in_out_ring = some (record rings { hopa_cp_out_ring = some filled }) })

  -- mbufs[i] = encode_probe_pkt(i) with so many rounds left.
  pub encode_probes :
      Cp I O → (ℕ → Option Pkt) → (ℕ → Timespec) → ℕ → ℕ → Result (List (Option Pkt))
  encode_probes s alloc clock i zero = ok []
  encode_probes s alloc clock i (suc rounds) = do
    mbuf ← encode_probe_pkt pf.dpdk pf.site s.hopa_cp_mp (alloc i) (clock i) i
    mbufs ← encode_probes s alloc clock (i + 1) rounds
    ok (mbuf ∷ mbufs)

  -- One round of hopa_cp_send in the cq tree: four probes.
  pub hopa_cp_send : Cp I O → (ℕ → Option Pkt) → (ℕ → Timespec) → Result (Cp I O)
  unfolding enqueue_out encode_probes
  hopa_cp_send s alloc clock = do mbufs ← encode_probes s alloc clock 0 path_nb; enqueue_out s mbufs

  -- One round of hopa_cp_send in the yy tree: a repath packet for path 2.
  pub hopa_cp_send_repath : Cp I O → Option Pkt → Result (Cp I O)
  unfolding enqueue_out
  hopa_cp_send_repath s alloc = do
    mbuf ← encode_repath_pkt pf.dpdk pf.site s.hopa_cp_mp alloc 2
    enqueue_out s (mbuf ∷ [])

  -- The path id of the header is used as an index without a test.
  pub hopa_cp_probe_pkt_progress : Cp I O → HopaCpHdr → Timespec → Result (Cp I O)
  hopa_cp_probe_pkt_progress s hopa_cp_hdr ts =
      let path_id = hopa_cp_hdr.probe_path_id in
      let sender_ts = pf.dpdk.be_to_cpu_64 hopa_cp_hdr.ts in
      let receiver_ts = nanoseconds ts in
      let delays =
        set s.all_paths_delay_list path_id (sub64 (add64 1000000000 receiver_ts) sender_ts) in
      if ltb path_id (length s.all_paths_delay_list)
      then ok (record s {
        all_paths_delay_list = delays;
        best_path_id = get_min_delay_path_id delays path_nb;
      })
      else fault

  pub hopa_cp_repath_pkt_progress : Cp I O → HopaCpHdr → Cp I O
  hopa_cp_repath_pkt_progress s hopa_cp_hdr = record s { best_path_id = hopa_cp_hdr.repath_id }

  -- It has no code yet.
  pub hopa_cp_repath_ack_pkt_progress : Cp I O → HopaCpHdr → Cp I O
  hopa_cp_repath_ack_pkt_progress s hopa_cp_hdr = s

  -- hopa_dp_ts_pkt_progress, which nothing calls: it always asks for another path.
  pub hopa_dp_ts_pkt_progress : Cp I O → Option Pkt → Result (Cp I O)
  unfolding enqueue_out
  hopa_dp_ts_pkt_progress s alloc = do
    repath_mbuf ← encode_repath_pkt pf.dpdk pf.site s.hopa_cp_mp alloc (to_u8 s.best_path_id)
    enqueue_out s (repath_mbuf ∷ [])

  -- The body of the loop of hopa_cp_progress.
  pub handle_hdr : Cp I O → HopaCpHdr → Timespec → Result (Cp I O)
  handle_hdr s hopa_cp_hdr ts =
      if hopa_cp_hdr.flag == hopa_cp
      then if hopa_cp_hdr.cp_flag == probe_flag
        then hopa_cp_probe_pkt_progress s hopa_cp_hdr ts
        else if hopa_cp_hdr.cp_flag == repath_flag
        then ok (hopa_cp_repath_pkt_progress s hopa_cp_hdr)
        else if hopa_cp_hdr.cp_flag == repath_ack_flag
        then ok (hopa_cp_repath_ack_pkt_progress s hopa_cp_hdr)
        else ok s
      else ok s

  pub handle_hdrs : Cp I O → List HopaCpHdr → (ℕ → Timespec) → ℕ → Result (Cp I O)
  handle_hdrs s [] clock i = ok s
  handle_hdrs s (hdr ∷ hdrs) clock i = do
    t ← handle_hdr s hdr (clock i)
    handle_hdrs t hdrs clock (i + 1)

  -- One round of hopa_cp_progress: the state, and the headers that it freed.
  pub hopa_cp_progress : Cp I O → (ℕ → Timespec) → Result (Cp I O × List HopaCpHdr)
  hopa_cp_progress s clock = do
    rings ← deref s.m_hopa_cp_in_out_ring
    ring ← deref rings.hopa_cp_in_ring
    let (hdrs, rest) = pf.in_ops.dequeue_burst ring 32
    let taken = record s {
      m_hopa_cp_in_out_ring = some (record rings { hopa_cp_in_ring = some rest });
    }
    handled ← handle_hdrs taken hdrs clock 0
    ok (handled, hdrs)
