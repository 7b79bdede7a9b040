-- ===== src/Hopa/Progress/Dispatch.antt =====
-- Which packets lcore_stats acts on, and what a repath packet and its ack set off.
use repath.Base.{◌<◌, ◌≤◌, ◌≡◌, ◌≢◌, ◌⊎◌, Bool, true, false, some, [], ◌∷◌, ok, arith, to_u8}
use repath.Dpdk.{IsDocumented, ipproto_udp}
use repath.Dpdk.Ring.{IsRing}
use repath.Hopa.Packet.{src_port, hopa_cp, hopa_dp, repath_flag, repath_ack_flag, frame_bytes, Pkt}
use repath.Hopa.Encode.Layout.{signal_pkt, encode_repath_pkt-ok}
use repath.Hopa.Check.{CurPathInfo, one_path_check}
use repath.Hopa.Progress.{
  Cp, InOutRing, Answers, Platform, stop, enqueue_out, handle_pkt, hopa_cp_repath_ack_pkt_progress,
  hopa_dp_ts_pkt_progress,
}

module _ {Q : Type 0} (pf : Platform Q) where
  -- A packet that is not UDP, or not from the program's port, or for neither plane, or a control
  -- packet of an unknown kind changes nothing.
  pub handle_pkt-foreign :
      (s : Cp Q) (p : Pkt) (a : Answers)
      → (p.ipv4.next_proto_id ≢ ipproto_udp)
        ⊎ (pf.dpdk.be_to_cpu_16 p.udp.src_port ≢ src_port)
        ⊎ (hopa_dp < p.cp.flag)
        ⊎ ((p.cp.flag ≡ hopa_cp) × (repath_ack_flag < p.cp.cp_flag))
      → handle_pkt pf s p a ≡ ok s
  unfolding handle_pkt
  handle_pkt-foreign s p a h = ground arith

  -- The program's own packets: UDP from its port.
  pub record IsOwn (p : Pkt) : Type 0 where
    pub is_udp : p.ipv4.next_proto_id ≡ ipproto_udp
    pub from : pf.dpdk.be_to_cpu_16 p.udp.src_port ≡ src_port

  module _ (doc : IsDocumented pf.dpdk) (ring : IsRing pf.ring) (s : Cp Q) (p : Pkt) (a : Answers)
      (own : IsOwn p) where
    -- An ack stops the timer and does nothing else, whatever it acknowledges.
    pub handle_pkt-repath_ack :
        p.cp.flag ≡ hopa_cp
        → p.cp.cp_flag ≡ repath_ack_flag
        → handle_pkt pf s p a ≡ ok (record s { retran_timer = stop ∷ s.retran_timer })
    unfolding handle_pkt hopa_cp_repath_ack_pkt_progress
    handle_pkt-repath_ack is_cp is_ack = ground (arith, own.is_udp, own.from)

    -- Where a fresh buffer with room and the rings are to be had and the path check returns, a
    -- timestamp of the data plane runs the check, and where that says so a repath packet with the
    -- best path's id goes to the outgoing ring; where not, only the check's record changes.
    pub handle_pkt-dp_ts :
        (m : Pkt) (rings : InOutRing Q) (out : Q) (info info' : CurPathInfo) (b : Bool)
        → p.cp.flag ≡ hopa_dp
        → s.cur_path_info ≡ some info
        → one_path_check pf.weigh info ≡ ok (b, info')
        → s.mbuf_pool ≡ true
        → a.alloc ≡ some m
        → m.pkt_len ≡ 0
        → frame_bytes ≤ pf.dpdk.data_room
        → s.hopa_in_out_ring_ins ≡ some rings
        → rings.hopa_out_ring ≡ some out
        → ((b ≡ false) × (handle_pkt pf s p a ≡ ok (record s { cur_path_info = some info' })))
          ⊎ ((b ≡ true)
              × (handle_pkt pf s p a
                  ≡ ok (record s {
                    cur_path_info = some info';
                    hopa_in_out_ring_ins = some (record rings {
                      hopa_out_ring =
                          some
                            (pf.ring.enqueue_burst out (
                              signal_pkt pf.dpdk doc repath_flag m s.opt_path_id
                                (to_u8 s.opt_path_id)
                              ∷ [])).1;
                    });
                  })))
    unfolding handle_pkt hopa_dp_ts_pkt_progress enqueue_out
    handle_pkt-dp_ts m rings out info info' b is_dp i c pool alloc fresh room r o = ground (
      arith,
      own.is_udp,
      own.from,
      encode_repath_pkt-ok pf.dpdk doc m fresh room s.opt_path_id (to_u8 s.opt_path_id),
    )
