-- ===== src/Ovs/Encode/Layout.antt =====
-- What the packet builders of ovs-vswitchd.c put on the wire.
use repath.Base.{ℕ, ◌+◌, ◌≤◌, ◌≡◌, refl, true, some, ok, arith, to_u16}
use repath.Dpdk.{Dpdk, IsDocumented, ether_type_ipv4, ipproto_udp}
use repath.Ovs.Packet.{
  src_port, dst_port, hopa_cp, probe_flag, repath_flag, Site, HopaCpHdr, udp_bytes, ip_bytes,
  frame_bytes, Pkt,
}
use repath.Ovs.Encode.{
  Timespec, nanoseconds, fill_eth, fill_ipv4, fill_udp, encode, encode_probe_pkt, encode_repath_pkt,
}

-- A complete control packet from a host to a port of the other.
pub record IsControl (d : Dpdk HopaCpHdr) (site : Site) (port : ℕ) (m : Pkt) : Type 0 where
  pub whole : m.pkt_len ≡ frame_bytes
  pub is_ipv4 : m.eth.ether_type ≡ d.cpu_to_be_16 ether_type_ipv4
  pub is_udp : m.ipv4.next_proto_id ≡ ipproto_udp
  pub ip_length : m.ipv4.total_length ≡ d.cpu_to_be_16 ip_bytes
  pub udp_length : m.udp.dgram_len ≡ d.cpu_to_be_16 udp_bytes
  pub from : m.udp.src_port ≡ d.cpu_to_be_16 src_port
  pub to : m.udp.dst_port ≡ d.cpu_to_be_16 port
  pub from_host : m.ipv4.src_addr ≡ d.cpu_to_be_32 site.src_ip
  pub to_host : m.ipv4.dst_addr ≡ d.cpu_to_be_32 site.dst_ip
  pub is_cp : m.cp.flag ≡ hopa_cp

-- The control headers of the two kinds of packet.
abbrev pub probe_hdr : Dpdk HopaCpHdr → Timespec → ℕ → HopaCpHdr
probe_hdr d ts path_id = record {
  flag = hopa_cp;
  cp_flag = probe_flag;
  probe_path_id = path_id;
  repath_id = 0;
  rsvd = 0;
  seq = 0;
  ack = 0;
  ts = d.cpu_to_be_64 (nanoseconds ts);
}

abbrev pub repath_hdr : ℕ → HopaCpHdr
repath_hdr repath_id = record {
  flag = hopa_cp;
  cp_flag = repath_flag;
  probe_path_id = 255;
  repath_id = repath_id;
  rsvd = 0;
  seq = 0;
  ack = 0;
  ts = 0;
}

module _ (d : Dpdk HopaCpHdr) (doc : IsDocumented d) (site : Site) where
  append_at :
      (m : Pkt) (k n : ℕ)
      → m.pkt_len ≡ k
      → k + n ≤ d.data_room
      → d.append m n ≡ some (record m { pkt_len = k + n })
  append_at m k n e h = rw (← e) (doc.append-room m n (omega arith))

  -- The packet that a builder makes of a fresh buffer.
  abbrev pub packet : Pkt → ℕ → HopaCpHdr → Pkt
  packet m id hdr = record {
    pkt_len = frame_bytes;
    eth = fill_eth d site m.eth;
    ipv4 = fill_ipv4 d site m.ipv4;
    udp = fill_udp d site m.udp id;
    cp = hdr;
  }

  pub packet-IsControl :
      (m : Pkt) (id : ℕ) (hdr : HopaCpHdr)
      → hdr.flag ≡ hopa_cp
      → IsControl d site (to_u16 (dst_port + id)) (packet m id hdr)
  unfolding fill_eth fill_ipv4 fill_udp
  packet-IsControl m id hdr e = ground arith

  module _ (m : Pkt) (e : m.pkt_len ≡ 0) (h : frame_bytes ≤ d.data_room) where
    encode-ok :
        (id : ℕ) (header : HopaCpHdr → HopaCpHdr)
        → encode d site true (some m) id header ≡ ok (some (packet m id (header m.cp)))
    unfolding encode
    encode-ok id header = rw (append_at m 0 14 e (omega arith)) (
        rw
          (append_at (record m { pkt_len = 14; eth = fill_eth d site m.eth }) 14 20 refl
            (omega arith))
          (rw
            (append_at
              (record m {
                pkt_len = 34;
                eth = fill_eth d site m.eth;
                ipv4 = fill_ipv4 d site m.ipv4;
              })
              34 8 refl (omega arith))
            (rw (
              append_at
                (record m {
                  pkt_len = 42;
                  eth = fill_eth d site m.eth;
                  ipv4 = fill_ipv4 d site m.ipv4;
                  udp = fill_udp d site m.udp id;
                })
                42 32 refl (omega arith)))))

    pub encode_probe_pkt-ok :
        (ts : Timespec) (path_id : ℕ)
        → encode_probe_pkt d site true (some m) ts path_id
          ≡ ok (some (packet m path_id (probe_hdr d ts path_id)))
    unfolding encode_probe_pkt
    encode_probe_pkt-ok ts path_id = encode-ok path_id _

    pub encode_repath_pkt-ok :
        (repath_id : ℕ)
        → encode_repath_pkt d site true (some m) repath_id
          ≡ ok (some (packet m repath_id (repath_hdr repath_id)))
    unfolding encode_repath_pkt
    encode_repath_pkt-ok repath_id = encode-ok repath_id _

    -- On a fresh buffer with room, the builders make whole control packets between the two hosts,
    -- to the port of the path that they name, and write every field of the control header; the UDP
    -- checksum is the one that lay in the buffer.
    pub vswitchd_encode-IsControl :
        (ts : Timespec) (id : ℕ)
        → ((p : Pkt) × (encode_probe_pkt d site true (some m) ts id ≡ ok (some p))
            × IsControl d site (to_u16 (dst_port + id)) p
            × (p.cp ≡ probe_hdr d ts id)
            × (p.udp.dgram_cksum ≡ m.udp.dgram_cksum))
          × ((p : Pkt) × (encode_repath_pkt d site true (some m) id ≡ ok (some p))
              × IsControl d site (to_u16 (dst_port + id)) p
              × (p.cp ≡ repath_hdr id)
              × (p.udp.dgram_cksum ≡ m.udp.dgram_cksum))
    unfolding fill_udp
    vswitchd_encode-IsControl ts id = (
      (
        packet m id (probe_hdr d ts id),
        encode_probe_pkt-ok ts id,
        packet-IsControl m id (probe_hdr d ts id) refl,
        refl,
        refl,
      ),
      (
        packet m id (repath_hdr id),
        encode_repath_pkt-ok id,
        packet-IsControl m id (repath_hdr id) refl,
        refl,
        refl,
      ),
    )
