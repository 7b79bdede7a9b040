-- ===== src/Dpdk/Api.antt =====
-- The functions of DPDK on byte order, checksums and buffers, as a parameter, and what its
-- documentation says of them.
use repath.Base.{ℕ, ◌+◌, ◌^◌, ◌≤◌, ◌<◌, ◌≡◌, Option, some}
use repath.Dpdk.Packet.{Ipv4Hdr, UdpHdr, Mbuf}

pub record Dpdk (C : Type 0) : Type 0 where
  -- rte_cpu_to_be_16 and its like
  pub cpu_to_be_16 : ℕ → ℕ
  pub be_to_cpu_16 : ℕ → ℕ
  pub cpu_to_be_32 : ℕ → ℕ
  pub cpu_to_be_64 : ℕ → ℕ
  pub be_to_cpu_64 : ℕ → ℕ
  -- rte_ipv4_cksum; rte_ipv4_udptcp_cksum, which reads the bytes behind the UDP header too
  pub ipv4_cksum : Ipv4Hdr → ℕ
  pub udptcp_cksum : Ipv4Hdr → UdpHdr → C → ℕ
  -- rte_pktmbuf_append: `none` is the null pointer of a buffer that is too small
  pub append : Mbuf C → ℕ → Option (Mbuf C)
  -- the bytes that a fresh buffer has room for
  pub data_room : ℕ

pub record IsDocumented {C : Type 0} (d : Dpdk C) : Type 0 where
  pub be_to_cpu-cpu_to_be_16 : (x : ℕ) → x < 2 ^ 16 → d.be_to_cpu_16 (d.cpu_to_be_16 x) ≡ x
  pub be_to_cpu-cpu_to_be_64 : (x : ℕ) → x < 2 ^ 64 → d.be_to_cpu_64 (d.cpu_to_be_64 x) ≡ x
  -- while there is room, `append` takes the bytes in use and touches nothing else
  pub append-room :
      (m : Mbuf C) (n : ℕ)
      → m.pkt_len + n ≤ d.data_room
      → d.append m n ≡ some (record m { pkt_len = m.pkt_len + n })
