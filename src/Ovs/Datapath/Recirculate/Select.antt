-- ===== src/Ovs/Datapath/Recirculate/Select.antt =====
-- Which packets dp_netdev_recirculate copies for the control plane.
use repath.Base.{
  ℕ, ◌≤◌, ◌<◌, ◌≡◌, refl, true, some, List, [], ◌∷◌, ok, arith, if◌then◌else◌, set, add64, sub64,
}
use repath.Dpdk.{IsDocumented}
use repath.Ovs.Packet.{HopaCpHdr, Pkt, Cp, hopa_cp, Site, path_nb, frame_bytes, udp_bytes, src_port}
use repath.Ovs.Encode.{Timespec, nanoseconds, encode_probe_pkt}
use repath.Ovs.Vswitchd.{Platform, handle_hdr, get_min_delay_path_id}
use repath.Ovs.Encode.Layout.{packet, packet-IsControl, probe_hdr, encode_probe_pkt-ok}
use repath.Ovs.Vswitchd.Progress.{HasTable, handle_hdr-probe}
use repath.Ovs.Datapath.Recirculate.{is_control}

module _ {I O : Type 0} (pf : Platform I O) where
  -- The control headers of a batch, in order.
  pub control_hdrs : List Pkt → List HopaCpHdr
  control_hdrs [] = []
  control_hdrs (pkt ∷ pkts) =
      if is_control pf pkt then pkt.cp ∷ control_hdrs pkts else control_hdrs pkts

  -- The packets of the other host's builders pass the tests.
  module _ (doc : IsDocumented pf.dpdk) where
    pub packet-is_control :
        (site : Site) (m : Pkt) (id : ℕ) (hdr : HopaCpHdr)
        → hdr.flag ≡ hopa_cp
        → is_control pf (packet pf.dpdk doc site m id hdr) ≡ true
    unfolding is_control
    packet-is_control site m id hdr f = ground (
      arith,
      packet-IsControl pf.dpdk doc site m id hdr f,
      doc.be_to_cpu-cpu_to_be_16 udp_bytes (omega arith),
      doc.be_to_cpu-cpu_to_be_16 src_port (omega arith),
    )

    -- The probe for path `i` that a host builds is copied by the datapath of the other one, and its
    -- handler stores a second and the difference of the two clocks at index `i` of the table.
    pub probe_arrives :
        (site : Site) (s : Cp I O) (m : Pkt) (sent received : Timespec) (i : ℕ)
        → m.pkt_len ≡ 0
        → frame_bytes ≤ pf.dpdk.data_room
        → HasTable s
        → i < path_nb
        → let delays =
            set s.all_paths_delay_list i
              (sub64 (add64 1000000000 (nanoseconds received)) (nanoseconds sent)) in
          (p : Pkt) × (encode_probe_pkt pf.dpdk site true (some m) sent i ≡ ok (some p))
          × (control_hdrs (p ∷ []) ≡ p.cp ∷ [])
          × (handle_hdr pf s p.cp received
              ≡ ok (record s {
                all_paths_delay_list = delays;
                best_path_id = get_min_delay_path_id delays path_nb;
              }))
    unfolding control_hdrs
    probe_arrives site s m sent received i fresh room e h = (
      packet pf.dpdk doc site m i (probe_hdr pf.dpdk sent i),
      encode_probe_pkt-ok pf.dpdk doc site m fresh room sent i,
      ground (arith, packet-is_control site m i (probe_hdr pf.dpdk sent i) refl),
      handle_hdr-probe pf s (probe_hdr pf.dpdk sent i) sent received e refl refl h
          (doc.be_to_cpu-cpu_to_be_64 (nanoseconds sent) (omega arith)),
    )
