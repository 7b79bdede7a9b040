-- ===== src/Dpdk.antt =====
-- The part of DPDK that the control plane calls. DPDK is not in the repository: its functions are
-- fields of a record that the model takes as a parameter, and `IsDocumented` states what the
-- program relies on. The header structs that the program fills are DPDK's rte_ether_hdr,
-- rte_ipv4_hdr and rte_udp_hdr; their sizes and the protocol numbers are those of the standards.
mod Packet
mod Api
pub mod Ring
pub mod Host
pub use Packet.*
pub use Api.*
