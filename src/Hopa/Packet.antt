-- ===== src/Hopa/Packet.antt =====
-- The constants and structs of repath_cp/include/hopa_cp.h.
use repath.Base.{ℕ, ◌+◌, List, [], ◌∷◌}
use repath.Dpdk.{Mbuf, ether_hdr_size, ipv4_hdr_size, udp_hdr_size, sizeof_struct, ipv4_addr}

abbrev pub burst_size : ℕ
burst_size = 32

abbrev pub src_mac : List ℕ
src_mac = 0x08 ∷ 0xc0 ∷ 0xeb ∷ 0xbf ∷ 0xef ∷ 0x9a ∷ []

abbrev pub dst_mac : List ℕ
dst_mac = 0x08 ∷ 0xc0 ∷ 0xeb ∷ 0xbf ∷ 0xef ∷ 0x82 ∷ []

abbrev pub src_ip : ℕ
src_ip = ipv4_addr 192 168 200 2

abbrev pub dst_ip : ℕ
dst_ip = ipv4_addr 192 168 200 1

-- The number of paths.
abbrev pub path_nb : ℕ
path_nb = 4

abbrev pub src_port : ℕ
src_port = 1234

abbrev pub dst_port_path_1 : ℕ
dst_port_path_1 = 5678

-- enum hopa_module
abbrev pub hopa_cp : ℕ
hopa_cp = 0

abbrev pub hopa_dp : ℕ
hopa_dp = 1

-- enum hopa_cp_flag
abbrev pub probe_flag : ℕ
probe_flag = 0

abbrev pub repath_flag : ℕ
repath_flag = 1

abbrev pub repath_ack_flag : ℕ
repath_ack_flag = 2

-- struct hopa_cp_hdr, its fields as they lie in the packet: ts, seq and ack are big-endian.
pub record HopaCpHdr : Type 0 where
  pub flag : ℕ
  pub cp_flag : ℕ
  pub ts : ℕ
  pub repath_id : ℕ
  pub seq : ℕ
  pub ack : ℕ
  pub rsvd : ℕ

-- sizeof(struct hopa_cp_hdr): the struct is not packed.
abbrev pub hopa_cp_hdr_size : ℕ
hopa_cp_hdr_size = sizeof_struct (1 ∷ 1 ∷ 8 ∷ 1 ∷ 8 ∷ 8 ∷ 1 ∷ [])

-- The bytes of a control packet behind the Ethernet header, and behind the IPv4 header.
abbrev pub ip_bytes : ℕ
ip_bytes = ipv4_hdr_size + udp_hdr_size + hopa_cp_hdr_size

abbrev pub udp_bytes : ℕ
udp_bytes = udp_hdr_size + hopa_cp_hdr_size

abbrev pub frame_bytes : ℕ
frame_bytes = ether_hdr_size + ip_bytes

abbrev pub Pkt : Type 0
Pkt = Mbuf HopaCpHdr

-- struct timespec as clock_gettime fills it: seconds and nanoseconds.
pub record Timespec : Type 0 where
  pub tv_sec : ℕ
  pub tv_nsec : ℕ
