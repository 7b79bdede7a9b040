-- ===== src/Ovs/Packet.antt =====
-- The constants and structs of dpif-netdev.h and ovs-vswitchd.c.
use repath.Base.{ℕ, ◌+◌, List, [], ◌∷◌, Option, Bool}
use repath.Dpdk.{Mbuf, ether_hdr_size, ipv4_hdr_size, udp_hdr_size, sizeof_struct, ipv4_addr}

abbrev pub path_nb : ℕ
path_nb = 4

abbrev pub src_port : ℕ
src_port = 4444

abbrev pub dst_port : ℕ
dst_port = 8880

-- enum hopa_module
abbrev pub hopa_cp : ℕ
hopa_cp = 0

-- enum hopa_cp_flag
abbrev pub probe_flag : ℕ
probe_flag = 0

abbrev pub repath_flag : ℕ
repath_flag = 1

abbrev pub repath_ack_flag : ℕ
repath_ack_flag = 2

-- The addresses of a host and of the other one.
pub record Site : Type 0 where
  pub src_mac : List ℕ
  pub dst_mac : List ℕ
  pub src_ip : ℕ
  pub dst_ip : ℕ

abbrev mac_9b : List ℕ
mac_9b = 0x08 ∷ 0xc0 ∷ 0xeb ∷ 0xbf ∷ 0xef ∷ 0x9b ∷ []

abbrev mac_83 : List ℕ
mac_83 = 0x08 ∷ 0xc0 ∷ 0xeb ∷ 0xbf ∷ 0xef ∷ 0x83 ∷ []

-- The #define lines of the two trees.
abbrev pub cq : Site
cq = record {
  src_mac = mac_9b;
  dst_mac = mac_83;
  src_ip = ipv4_addr 192 168 201 2;
  dst_ip = ipv4_addr 192 168 201 1;
}

abbrev pub yy : Site
yy = record {
  src_mac = mac_83;
  dst_mac = mac_9b;
  src_ip = ipv4_addr 192 168 201 1;
  dst_ip = ipv4_addr 192 168 201 2;
}

-- struct hopa_cp_hdr of dpif-netdev.h, its fields as they lie in the packet.
pub record HopaCpHdr : Type 0 where
  pub flag : ℕ
  pub cp_flag : ℕ
  pub probe_path_id : ℕ
  pub repath_id : ℕ
  pub rsvd : ℕ
  pub seq : ℕ
  pub ack : ℕ
  pub ts : ℕ

abbrev pub hopa_cp_hdr_size : ℕ
hopa_cp_hdr_size = sizeof_struct (1 ∷ 1 ∷ 1 ∷ 1 ∷ 1 ∷ 8 ∷ 8 ∷ 8 ∷ [])

abbrev pub udp_bytes : ℕ
udp_bytes = udp_hdr_size + hopa_cp_hdr_size

abbrev pub ip_bytes : ℕ
ip_bytes = ipv4_hdr_size + udp_bytes

abbrev pub frame_bytes : ℕ
frame_bytes = ether_hdr_size + ip_bytes

abbrev pub Pkt : Type 0
Pkt = Mbuf HopaCpHdr

-- struct hopa_cp_in_out_ring: control headers come in, buffers go out, null pointers among them;
-- a ring that could not be created is null itself.
pub record InOutRing (I O : Type 0) : Type 0 where
  pub hopa_cp_in_ring : Option I
  pub hopa_cp_out_ring : Option O

-- The global variables that the threads of ovs-vswitchd.c and the datapath share.
pub record Cp (I O : Type 0) : Type 0 where
  pub hopa_cp_has_init : Bool
  pub hopa_cp_mp : Bool
  pub m_hopa_cp_in_out_ring : Option (InOutRing I O)
  pub all_paths_delay_list : List ℕ
  pub best_path_id : ℕ
  -- the threads that pthread_create started
  pub threads : Bool
