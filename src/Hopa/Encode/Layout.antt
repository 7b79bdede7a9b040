-- ===== src/Hopa/Encode/Layout.antt =====
-- What the packet builders of hopa_cp.c put on the wire.
use repath.Base.{ℕ, ◌+◌, ◌-◌, ◌≤◌, ◌≡◌, refl, true, some, ok, arith, to_u16}
use repath.Dpdk.{Dpdk, IsDocumented, ether_type_ipv4, ipproto_udp}
use repath.Hopa.Packet.{
  src_port, dst_port_path_1, hopa_cp, probe_flag, repath_flag, repath_ack_flag, HopaCpHdr,
  hopa_cp_hdr_size, ip_bytes, udp_bytes, frame_bytes, Pkt, Timespec,
}
use repath.Hopa.Encode.{
  nanoseconds, fill_eth_header, fill_ipv4_header, fill_udp_header, encode_udp_pkt, encode_probe_pkt,
  encode_repath_pkt, encode_repath_ack_pkt,
}

-- A complete control packet for a UDP port with the given kind and repath id.
pub record IsControl (d : Dpdk HopaCpHdr) (port kind id : ℕ) (m : Pkt) : Type 0 where
  pub whole : m.pkt_len ≡ frame_bytes
  pub is_ipv4 : m.eth.ether_type ≡ d.cpu_to_be_16 ether_type_ipv4
  pub is_udp : m.ipv4.next_proto_id ≡ ipproto_udp
  pub ip_length : m.ipv4.total_length ≡ d.cpu_to_be_16 ip_bytes
  pub udp_length : m.udp.dgram_len ≡ d.cpu_to_be_16 udp_bytes
  pub from : m.udp.src_port ≡ d.cpu_to_be_16 src_port
  pub to : m.udp.dst_port ≡ d.cpu_to_be_16 port
  pub is_cp : m.cp.flag ≡ hopa_cp
  pub kind_lem : m.cp.cp_flag ≡ kind
  pub id_lem : m.cp.repath_id ≡ id

module _ (d : Dpdk HopaCpHdr) (doc : IsDocumented d) where
  append_at :
      (m : Pkt) (k n : ℕ)
      → m.pkt_len ≡ k
      → k + n ≤ d.data_room
      → d.append m n ≡ some (record m { pkt_len = k + n })
  append_at m k n e h = rw (← e) (doc.append-room m n (omega arith))

  -- The buffer that `encode_udp_pkt` makes of a fresh one.
  abbrev udp_pkt : Pkt → ℕ → Pkt
  udp_pkt m dst_port = record m {
    pkt_len = 42;
    eth = fill_eth_header d m.eth;
    ipv4 = fill_ipv4_header d m.ipv4;
    udp = fill_udp_header d (fill_ipv4_header d m.ipv4) m.udp m.cp dst_port;
  }

  encode_udp_pkt-ok :
      (m : Pkt) (dst_port : ℕ)
      → m.pkt_len ≡ 0
      → 42 ≤ d.data_room
      → encode_udp_pkt d true (some m) dst_port ≡ ok (some (udp_pkt m dst_port))
  unfolding encode_udp_pkt
  encode_udp_pkt-ok m dst_port e h = rw (append_at m 0 14 e (omega arith)) (
      rw
        (append_at (record m { pkt_len = 14; eth = fill_eth_header d m.eth }) 14 20 refl
          (omega arith))
        (rw (
          append_at
            (record m {
              pkt_len = 34;
              eth = fill_eth_header d m.eth;
              ipv4 = fill_ipv4_header d m.ipv4;
            })
            34 8 refl (omega arith))))

  append_cp :
      (m : Pkt) (dst_port : ℕ)
      → frame_bytes ≤ d.data_room
      → d.append (udp_pkt m dst_port) hopa_cp_hdr_size
        ≡ some (record (udp_pkt m dst_port) { pkt_len = frame_bytes })
  append_cp m dst_port h = append_at (udp_pkt m dst_port) 42 48 refl (omega arith)

  abbrev pub probe_pkt : Pkt → Timespec → ℕ → Pkt
  probe_pkt m ts path_id = record (udp_pkt m (to_u16 (5677 + path_id))) {
    pkt_len = frame_bytes;
    cp = record {
      flag = hopa_cp;
      cp_flag = probe_flag;
      rsvd = 0;
      repath_id = 0;
      seq = 0;
      ack = 0;
      ts = d.cpu_to_be_64 (nanoseconds ts);
    };
  }

  abbrev pub signal_pkt : ℕ → Pkt → ℕ → ℕ → Pkt
  signal_pkt kind m opt_path_id repath_id = record (udp_pkt m (to_u16 (5677 + opt_path_id))) {
    pkt_len = frame_bytes;
    cp = record m.cp {
      flag = hopa_cp;
      cp_flag = kind;
      rsvd = 0;
      repath_id = repath_id;
      seq = 0;
      ack = 0;
    };
  }

  -- The builders on a fresh buffer that is large enough.
  module _ (m : Pkt) (e : m.pkt_len ≡ 0) (h : frame_bytes ≤ d.data_room) where
    pub encode_probe_pkt-ok :
        (ts : Timespec) (path_id : ℕ)
        → encode_probe_pkt d true (some m) (some ts) path_id ≡ ok (probe_pkt m ts path_id)
    unfolding encode_probe_pkt
    encode_probe_pkt-ok ts path_id =
        rw (encode_udp_pkt-ok m (to_u16 (5677 + path_id)) e (omega arith))
          (rw (append_cp m (to_u16 (5677 + path_id)) h))

    pub encode_repath_pkt-ok :
        (opt_path_id repath_id : ℕ)
        → encode_repath_pkt d true (some m) opt_path_id repath_id
          ≡ ok (signal_pkt repath_flag m opt_path_id repath_id)
    unfolding encode_repath_pkt
    encode_repath_pkt-ok opt_path_id repath_id =
        rw (encode_udp_pkt-ok m (to_u16 (5677 + opt_path_id)) e (omega arith))
          (rw (append_cp m (to_u16 (5677 + opt_path_id)) h))

    pub encode_repath_ack_pkt-ok :
        (opt_path_id : ℕ)
        → encode_repath_ack_pkt d true (some m) opt_path_id
          ≡ ok (signal_pkt repath_ack_flag m opt_path_id 0)
    unfolding encode_repath_ack_pkt
    encode_repath_ack_pkt-ok opt_path_id =
        rw (encode_udp_pkt-ok m (to_u16 (5677 + opt_path_id)) e (omega arith))
          (rw (append_cp m (to_u16 (5677 + opt_path_id)) h))

    pub probe_pkt-IsControl :
        (ts : Timespec) (path_id : ℕ)
        → IsControl d (to_u16 (dst_port_path_1 - 1 + path_id)) probe_flag 0 (probe_pkt m ts path_id)
    unfolding fill_eth_header fill_ipv4_header fill_udp_header
    probe_pkt-IsControl ts path_id = ground arith

    pub signal_pkt-IsControl :
        (kind opt_path_id repath_id : ℕ)
        → IsControl d
            (to_u16 (dst_port_path_1 - 1 + opt_path_id))
            kind
            repath_id
            (signal_pkt kind m opt_path_id repath_id)
    unfolding fill_eth_header fill_ipv4_header fill_udp_header
    signal_pkt-IsControl kind opt_path_id repath_id = ground arith

    -- The UDP checksum of a probe is taken over the bytes that lay behind the UDP header before
    -- the control header was written, with the buffer's old checksum in its place; the IPv4
    -- checksum too is taken with the old one in its place.
    pub encode_probe_pkt-cksum :
        (ts : Timespec) (path_id : ℕ)
        → (p : Pkt) × (encode_probe_pkt d true (some m) (some ts) path_id ≡ ok p)
          × (p.udp.dgram_cksum
              ≡ d.udptcp_cksum p.ipv4 (record p.udp { dgram_cksum = m.udp.dgram_cksum }) m.cp)
          × (p.ipv4.hdr_checksum
              ≡ d.ipv4_cksum (record p.ipv4 { hdr_checksum = m.ipv4.hdr_checksum }))
    unfolding fill_udp_header fill_ipv4_header
    encode_probe_pkt-cksum ts path_id =
        (probe_pkt m ts path_id, encode_probe_pkt-ok ts path_id, refl, refl)
