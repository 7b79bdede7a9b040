-- ===== src/Dpdk/Packet.antt =====
-- Packets as the program sees them: the headers at their fixed offsets in an rte_mbuf.
use repath.Base.{ℕ, ◌+◌, ◌-◌, ◌*◌, ◌/◌, ◌^◌, List, [], ◌∷◌, max}
use Prim.Native.Nat.{bit_and, bit_or}

pub record EthHdr : Type 0 where
  pub s_addr : List ℕ
  pub d_addr : List ℕ
  pub ether_type : ℕ

pub record Ipv4Hdr : Type 0 where
  pub version_ihl : ℕ
  pub type_of_service : ℕ
  pub total_length : ℕ
  pub packet_id : ℕ
  pub fragment_offset : ℕ
  pub time_to_live : ℕ
  pub next_proto_id : ℕ
  pub hdr_checksum : ℕ
  pub src_addr : ℕ
  pub dst_addr : ℕ

pub record UdpHdr : Type 0 where
  pub src_port : ℕ
  pub dst_port : ℕ
  pub dgram_len : ℕ
  pub dgram_cksum : ℕ

-- A buffer: how many bytes of it are in use, and the headers that lie at the offsets 0, 14, 34
-- and 42, whether or not they are in use yet. A buffer fresh from the pool has 0 bytes in use and
-- holds what its last user left.
pub record Mbuf (C : Type 0) : Type 0 where
  pub pkt_len : ℕ
  pub eth : EthHdr
  pub ipv4 : Ipv4Hdr
  pub udp : UdpHdr
  pub cp : C

-- sizeof(struct rte_ether_hdr), sizeof(struct rte_ipv4_hdr), sizeof(struct rte_udp_hdr).
abbrev pub ether_hdr_size : ℕ
ether_hdr_size = 14

abbrev pub ipv4_hdr_size : ℕ
ipv4_hdr_size = 20

abbrev pub udp_hdr_size : ℕ
udp_hdr_size = 8

-- RTE_ETHER_TYPE_IPV4 and IPPROTO_UDP.
abbrev pub ether_type_ipv4 : ℕ
ether_type_ipv4 = 0x0800

abbrev pub ipproto_udp : ℕ
ipproto_udp = 17

-- The offset after a field of `size` bytes that is aligned to its own size.
abbrev pub after_field : ℕ → ℕ → ℕ
after_field offset size = (offset + (size - 1)) / size * size + size

abbrev offsets : ℕ → List ℕ → ℕ
offsets offset [] = offset
offsets offset (size ∷ sizes) = offsets (after_field offset size) sizes

abbrev alignment : List ℕ → ℕ
alignment [] = 1
alignment (size ∷ sizes) = max size (alignment sizes)

-- sizeof a struct of scalars of these sizes, by the layout rules of the x86-64 and AArch64 ABIs.
abbrev pub sizeof_struct : List ℕ → ℕ
sizeof_struct sizes = let align = alignment sizes in (offsets 0 sizes + (align - 1)) / align * align

-- IPV4_ADDR(a, b, c, d) of hopa_cp.h.
abbrev pub ipv4_addr : ℕ → ℕ → ℕ → ℕ → ℕ
ipv4_addr a b c d =
    bit_or (bit_and a 0xff * 2 ^ 24)
      (bit_or (bit_and b 0xff * 2 ^ 16) (bit_or (bit_and c 0xff * 2 ^ 8) (bit_and d 0xff)))
