-- ===== src/Dpdk/Host.antt =====
-- A little-endian host with room for 2048 bytes in a buffer: an instance of the DPDK parameter at
-- which the documented laws hold.
use repath.Base.{
  ℕ, ◌+◌, ◌*◌, ◌/◌, ◌%◌, ◌^◌, ◌<◌, ◌≡◌, Option, none, some, leb, if◌then◌else◌, arith,
}
use repath.Dpdk.Packet.{Mbuf}
use repath.Dpdk.Api.{Dpdk, IsDocumented}

abbrev pub swap_16 : ℕ → ℕ
swap_16 x = x % 2 ^ 8 * 2 ^ 8 + x / 2 ^ 8 % 2 ^ 8

abbrev pub swap_32 : ℕ → ℕ
swap_32 x = swap_16 (x % 2 ^ 16) * 2 ^ 16 + swap_16 (x / 2 ^ 16 % 2 ^ 16)

abbrev pub swap_64 : ℕ → ℕ
swap_64 x = swap_32 (x % 2 ^ 32) * 2 ^ 32 + swap_32 (x / 2 ^ 32 % 2 ^ 32)

swap_16_twice : (x : ℕ) → x < 2 ^ 16 → swap_16 (swap_16 x) ≡ x
swap_16_twice x h = omega arith

swap_32_twice : (x : ℕ) → x < 2 ^ 32 → swap_32 (swap_32 x) ≡ x
swap_32_twice x h = omega arith

swap_64_twice : (x : ℕ) → x < 2 ^ 64 → swap_64 (swap_64 x) ≡ x
swap_64_twice x h = omega arith

abbrev pub append_within : {C : Type 0} → Mbuf C → ℕ → Option (Mbuf C)
append_within m n =
    if leb (m.pkt_len + n) 2048 then some (record m { pkt_len = m.pkt_len + n }) else none

module _ {C : Type 0} where
  -- The checksums stand for any function of the headers that they read.
  abbrev pub little_endian : Dpdk C
  little_endian = record {
    cpu_to_be_16 = swap_16;
    be_to_cpu_16 = swap_16;
    cpu_to_be_32 = swap_32;
    cpu_to_be_64 = swap_64;
    be_to_cpu_64 = swap_64;
    ipv4_cksum = λ h. (h.total_length + h.hdr_checksum + h.src_addr + h.dst_addr) % 2 ^ 16;
    udptcp_cksum = λ h u c. (h.total_length + u.dst_port + u.dgram_cksum) % 2 ^ 16;
    append = append_within;
    data_room = 2048;
  }

  pub little_endian-IsDocumented : IsDocumented little_endian
  little_endian-IsDocumented = record {
    be_to_cpu-cpu_to_be_16 = swap_16_twice;
    be_to_cpu-cpu_to_be_64 = swap_64_twice;
    append-room = λ m n h. ground arith;
  }
