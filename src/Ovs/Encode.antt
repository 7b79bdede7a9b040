-- ===== src/Ovs/Encode.antt =====
-- The packet builders of ovs-vswitchd.c of both trees.
pub mod Layout
use repath.Base.{
  ℕ, zero, suc, ◌+◌, ◌-◌, ◌*◌, ◌^◌, Bool, true, false, Option, none, some, List, [], ◌∷◌, ◌++◌,
  Result, ok, ◌>>=◌, ◌>>◌, deref, defined, ltb, leb, ◌==◌, if◌then◌else◌, not, get_or, length, set,
  fault, to_u8, to_u16, to_u64, add64, sub64,
}
use repath.Dpdk.{
  Dpdk, EthHdr, Ipv4Hdr, UdpHdr, Mbuf, ether_hdr_size, ipv4_hdr_size, udp_hdr_size, ether_type_ipv4,
  ipproto_udp,
}
use repath.Dpdk.Ring.{RingOps}
use repath.Ovs.Packet.{
  path_nb, src_port, dst_port, hopa_cp, probe_flag, repath_flag, repath_ack_flag, Site, HopaCpHdr,
  hopa_cp_hdr_size, Pkt, InOutRing, Cp,
}

-- struct timespec
pub record Timespec : Type 0 where
  pub tv_sec : ℕ
  pub tv_nsec : ℕ

abbrev pub nanoseconds : Timespec → ℕ
nanoseconds ts = to_u64 (ts.tv_sec * 1000000000 + ts.tv_nsec)

module _ (d : Dpdk HopaCpHdr) (site : Site) where
  open d use {cpu_to_be_16, cpu_to_be_32, cpu_to_be_64, ipv4_cksum, append}

  -- The three headers in front of the control header; the UDP checksum is not written.
  pub fill_eth : EthHdr → EthHdr
  fill_eth eth_hdr = record eth_hdr {
    s_addr = site.src_mac;
    d_addr = site.dst_mac;
    ether_type = cpu_to_be_16 ether_type_ipv4;
  }

  pub fill_ipv4 : Ipv4Hdr → Ipv4Hdr
  fill_ipv4 ipv4_hdr =
      let filled = record ipv4_hdr {
        version_ihl = 4 * 2 ^ 4 + 5;
        type_of_service = 0;
        total_length = cpu_to_be_16 (ipv4_hdr_size + udp_hdr_size + hopa_cp_hdr_size);
        packet_id = cpu_to_be_16 5462;
        fragment_offset = cpu_to_be_16 0;
        time_to_live = 64;
        next_proto_id = ipproto_udp;
        src_addr = cpu_to_be_32 site.src_ip;
        dst_addr = cpu_to_be_32 site.dst_ip;
      } in
      record filled { hdr_checksum = ipv4_cksum filled }

  pub fill_udp : UdpHdr → ℕ → UdpHdr
  fill_udp udp_hdr id = record udp_hdr {
    src_port = cpu_to_be_16 src_port;
    dst_port = cpu_to_be_16 (to_u16 (dst_port + id));
    dgram_len = cpu_to_be_16 (udp_hdr_size + hopa_cp_hdr_size);
  }

  -- The common part of the two builders: `header` fills the control header.
  pub encode : Bool → Option Pkt → ℕ → (HopaCpHdr → HopaCpHdr) → Result (Option Pkt)
  unfolding fill_eth fill_ipv4 fill_udp
  encode hopa_cp_mp alloc id header =
      let built = λ (fresh : Pkt). do
        m ← deref (append fresh ether_hdr_size)
        let with_eth = record m { eth = fill_eth m.eth }
        m ← deref (append with_eth ipv4_hdr_size)
        let with_ipv4 = record m { ipv4 = fill_ipv4 m.ipv4 }
        m ← deref (append with_ipv4 udp_hdr_size)
        let with_udp = record m { udp = fill_udp m.udp id }
        m ← deref (append with_udp hopa_cp_hdr_size)
        ok (some (record m { cp = header m.cp }))
      in if not hopa_cp_mp
        then ok none
        else elim alloc [ none ↦ ok none | some fresh ↦ built fresh ]

  -- `none` is the null pointer that the builder returns without a pool or a buffer.
  pub encode_probe_pkt : Bool → Option Pkt → Timespec → ℕ → Result (Option Pkt)
  encode_probe_pkt hopa_cp_mp alloc ts path_id = encode hopa_cp_mp alloc path_id λ hopa_cp_hdr.
      record hopa_cp_hdr {
        flag = hopa_cp;
        cp_flag = probe_flag;
        probe_path_id = path_id;
        repath_id = 0;
        rsvd = 0;
        seq = 0;
        ack = 0;
        ts = cpu_to_be_64 (nanoseconds ts);
      }

  pub encode_repath_pkt : Bool → Option Pkt → ℕ → Result (Option Pkt)
  encode_repath_pkt hopa_cp_mp alloc repath_id = encode hopa_cp_mp alloc repath_id λ hopa_cp_hdr.
      record hopa_cp_hdr {
        flag = hopa_cp;
        cp_flag = repath_flag;
        probe_path_id = to_u8 65535;
        repath_id = repath_id;
        rsvd = 0;
        seq = 0;
        ack = 0;
        ts = 0;
      }
