-- ===== src/Ovs/Examples/Setting.antt =====
-- The data of the tests: the host of the cq tree, little-endian, with rings of 1023 places.
use repath.Base.{ℕ, true, some, Option, List, [], ◌∷◌}
use repath.Dpdk.{IsDocumented}
use repath.Dpdk.Ring.{IsRing, list_ring, list_ring-IsRing}
use repath.Dpdk.Host.{little_endian, little_endian-IsDocumented}
use repath.Ovs.Packet.{HopaCpHdr, Pkt, InOutRing, Cp, cq}
use repath.Ovs.Encode.{Timespec}
use repath.Ovs.Vswitchd.{Platform, InitAnswers}

abbrev pub Ins : Type 0
Ins = List HopaCpHdr

abbrev pub Outs : Type 0
Outs = List (Option Pkt)

-- A buffer with what a last user left in it.
abbrev pub stale : Pkt
stale = record {
  pkt_len = 0;
  eth = record { s_addr = []; d_addr = []; ether_type = 7 };
  ipv4 = record {
    version_ihl = 1;
    type_of_service = 2;
    total_length = 3;
    packet_id = 4;
    fragment_offset = 5;
    time_to_live = 6;
    next_proto_id = 7;
    hdr_checksum = 8;
    src_addr = 9;
    dst_addr = 10;
  };
  udp = record { src_port = 11; dst_port = 12; dgram_len = 13; dgram_cksum = 14 };
  cp = record {
    flag = 9;
    cp_flag = 9;
    probe_path_id = 9;
    repath_id = 9;
    rsvd = 9;
    seq = 9;
    ack = 9;
    ts = 99;
  };
}

abbrev pub pf : Platform Ins Outs
pf = record { dpdk = little_endian; in_ops = list_ring 1023; out_ops = list_ring 1023; site = cq }

pub pf-IsDocumented : IsDocumented pf.dpdk
pf-IsDocumented = little_endian-IsDocumented

pub in-IsRing : IsRing pf.in_ops
in-IsRing = list_ring-IsRing 1023

pub out-IsRing : IsRing pf.out_ops
out-IsRing = list_ring-IsRing 1023

abbrev pub at : ℕ → ℕ → Timespec
at sec nsec = record { tv_sec = sec; tv_nsec = nsec }

-- hopa_cp_init at the third second, with all that it asks for.
abbrev pub init_answers : InitAnswers Ins Outs
init_answers = record {
  time = 3000;
  start_time = 2000;
  pool = true;
  malloc = true;
  in_ring = some [];
  out_ring = some [];
}

-- The rings with given contents, and a host that is set up with them.
abbrev pub rings : Ins → Outs → InOutRing Ins Outs
rings ins outs = record { hopa_cp_in_ring = some ins; hopa_cp_out_ring = some outs }

abbrev pub host : Ins → Outs → Cp Ins Outs
host ins outs = record {
  hopa_cp_has_init = true;
  hopa_cp_mp = true;
  m_hopa_cp_in_out_ring = some (rings ins outs);
  all_paths_delay_list = 0xFFFFFFFF ∷ 0xFFFFFFFF ∷ 0xFFFFFFFF ∷ 0xFFFFFFFF ∷ [];
  best_path_id = 0;
  threads = true;
}
