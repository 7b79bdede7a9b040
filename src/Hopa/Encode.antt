-- ===== src/Hopa/Encode.antt =====
-- The packet builders of hopa_cp.c. What rte_pktmbuf_alloc and clock_gettime return are arguments;
-- printf is left out.
pub mod Layout
use repath.Base.{
  ℕ, ◌+◌, ◌-◌, ◌*◌, ◌^◌, Bool, Option, none, some, Result, ok, ◌>>=◌, ◌>>◌, deref, or_exit,
  if◌then◌else◌, not, to_u16, to_u64,
}
use repath.Dpdk.{
  Dpdk, EthHdr, Ipv4Hdr, UdpHdr, Mbuf, ether_hdr_size, ipv4_hdr_size, udp_hdr_size, ether_type_ipv4,
  ipproto_udp,
}
use repath.Hopa.Packet.{
  src_mac, dst_mac, src_ip, dst_ip, src_port, dst_port_path_1, hopa_cp, probe_flag, repath_flag,
  repath_ack_flag, HopaCpHdr, hopa_cp_hdr_size, Pkt, Timespec,
}

-- (uint64_t)ts.tv_sec * 1000000000 + ts.tv_nsec
abbrev pub nanoseconds : Timespec → ℕ
nanoseconds ts = to_u64 (ts.tv_sec * 1000000000 + ts.tv_nsec)

module _ (d : Dpdk HopaCpHdr) where
  open d use {cpu_to_be_16, cpu_to_be_32, cpu_to_be_64, ipv4_cksum, udptcp_cksum, append}

  pub fill_eth_header : EthHdr → EthHdr
  fill_eth_header eth_hdr = record eth_hdr {
    s_addr = src_mac;
    d_addr = dst_mac;
    ether_type = cpu_to_be_16 ether_type_ipv4;
  }

  -- The checksum is taken over the header as it stands, its old checksum included.
  pub fill_ipv4_header : Ipv4Hdr → Ipv4Hdr
  fill_ipv4_header ipv4_hdr =
      let filled = record ipv4_hdr {
        version_ihl = 4 * 2 ^ 4 + 5;
        type_of_service = 0;
        total_length = cpu_to_be_16 (ipv4_hdr_size + udp_hdr_size + hopa_cp_hdr_size);
        packet_id = cpu_to_be_16 5462;
        fragment_offset = cpu_to_be_16 0;
        time_to_live = 64;
        next_proto_id = ipproto_udp;
        src_addr = cpu_to_be_32 src_ip;
        dst_addr = cpu_to_be_32 dst_ip;
      } in
      record filled { hdr_checksum = ipv4_cksum filled }

  -- `behind` is what lies behind the UDP header at this moment, which the checksum reads too.
  pub fill_udp_header : Ipv4Hdr → UdpHdr → HopaCpHdr → ℕ → UdpHdr
  fill_udp_header ipv4_hdr udp_hdr behind dst_port =
      let filled = record udp_hdr {
        src_port = cpu_to_be_16 src_port;
        dst_port = cpu_to_be_16 dst_port;
        dgram_len = cpu_to_be_16 (udp_hdr_size + hopa_cp_hdr_size);
      } in
      record filled { dgram_cksum = udptcp_cksum ipv4_hdr filled behind }

  -- `mbuf_pool` says that the pool's pointer is not null; `none` is the null pointer returned.
  -- No result of rte_pktmbuf_append is tested: a write through its null pointer is a fault.
  pub encode_udp_pkt : Bool → Option Pkt → ℕ → Result (Option Pkt)
  unfolding fill_eth_header fill_ipv4_header fill_udp_header
  encode_udp_pkt mbuf_pool alloc dst_port =
      let built = do
        fresh ← or_exit alloc
        m ← deref (append fresh ether_hdr_size)
        let with_eth = record m { eth = fill_eth_header m.eth }
        m ← deref (append with_eth ipv4_hdr_size)
        let with_ipv4 = record m { ipv4 = fill_ipv4_header m.ipv4 }
        m ← deref (append with_ipv4 udp_hdr_size)
        ok (some (record m { udp = fill_udp_header m.ipv4 m.udp m.cp dst_port }))
      in if not mbuf_pool then ok none else built

  -- `clock` is what clock_gettime stored; `none` is its failure.
  unfoldable pub encode_probe_pkt : Bool → Option Pkt → Option Timespec → ℕ → Result Pkt
  encode_probe_pkt mbuf_pool alloc clock path_id = do
    built ← encode_udp_pkt mbuf_pool alloc (to_u16 (dst_port_path_1 - 1 + path_id))
    mbuf ← deref built
    m ← deref (append mbuf hopa_cp_hdr_size)
    ts ← or_exit clock
    ok (record m {
      cp = record {
        flag = hopa_cp;
        cp_flag = probe_flag;
        rsvd = 0;
        repath_id = 0;
        seq = 0;
        ack = 0;
        ts = cpu_to_be_64 (nanoseconds ts);
      };
    })

  -- The timestamp is left as it lies in the buffer.
  unfoldable pub encode_repath_pkt : Bool → Option Pkt → ℕ → ℕ → Result Pkt
  encode_repath_pkt mbuf_pool alloc opt_path_id repath_id = do
    built ← encode_udp_pkt mbuf_pool alloc (to_u16 (dst_port_path_1 - 1 + opt_path_id))
    mbuf ← deref built
    m ← deref (append mbuf hopa_cp_hdr_size)
    ok (record m {
      cp = record m.cp {
        flag = hopa_cp;
        cp_flag = repath_flag;
        rsvd = 0;
        repath_id = repath_id;
        seq = 0;
        ack = 0;
      };
    })

  pub encode_repath_ack_pkt : Bool → Option Pkt → ℕ → Result Pkt
  encode_repath_ack_pkt mbuf_pool alloc opt_path_id = do
    built ← encode_udp_pkt mbuf_pool alloc (to_u16 (dst_port_path_1 - 1 + opt_path_id))
    mbuf ← deref built
    m ← deref (append mbuf hopa_cp_hdr_size)
    ok (record m {
      cp = record m.cp {
        flag = hopa_cp;
        cp_flag = repath_ack_flag;
        rsvd = 0;
        repath_id = 0;
        seq = 0;
        ack = 0;
      };
    })
