-- ===== src/Hopa/Examples/Setting.antt =====
-- The data of the tests of hopa_cp.c: a little-endian host, rings of 1023 places and a clock.
use repath.Base.{ℕ, ◌+◌, ◌*◌, ◌/◌, true, some, List, [], arith}
use repath.Dpdk.{IsDocumented}
use repath.Dpdk.Ring.{IsRing, list_ring, list_ring-IsRing}
use repath.Dpdk.Host.{little_endian, little_endian-IsDocumented}
use repath.Hopa.Packet.{Pkt, Timespec}
use repath.Hopa.Check.{CurPathInfo, Weigh, IsWeigh}
use repath.Hopa.Progress.{Cp, InOutRing, Answers, Platform, initial}

-- A buffer fresh from the pool, with what a last user left in it.
abbrev pub stale : Pkt
stale = record {
  pkt_len = 0;
  eth = record { s_addr = []; d_addr = []; ether_type = 7 };
  ipv4 = record {
    version_ihl = 1;
    type_of_service = 2;
    total_length = 3;
    packet_id = 4;
    fragment_offset = 5;
    time_to_live = 6;
    next_proto_id = 7;
    hdr_checksum = 8;
    src_addr = 9;
    dst_addr = 10;
  };
  udp = record { src_port = 11; dst_port = 12; dgram_len = 13; dgram_cksum = 14 };
  cp = record { flag = 9; cp_flag = 9; ts = 99; repath_id = 9; seq = 9; ack = 9; rsvd = 9 };
}

abbrev pub seven_tenths : Weigh
seven_tenths = record { weigh = λ base span. base + span * 7 / 10 }

pub seven_tenths-IsWeigh : IsWeigh seven_tenths
seven_tenths-IsWeigh = record { weigh_bounds = λ base span h. omega arith }

abbrev pub pf : Platform (List Pkt)
pf = record { dpdk = little_endian; ring = list_ring 1023; hz = 1000; weigh = seven_tenths }

pub pf-IsDocumented : IsDocumented pf.dpdk
pf-IsDocumented = little_endian-IsDocumented

pub pf-IsRing : IsRing pf.ring
pf-IsRing = list_ring-IsRing 1023

abbrev pub at : ℕ → ℕ → Timespec
at sec nsec = record { tv_sec = sec; tv_nsec = nsec }

abbrev pub answers : Answers
answers = record { alloc = some stale; clock = some (at 100 5000) }

abbrev pub empty_rings : InOutRing (List Pkt)
empty_rings = record { hopa_in_ring = some []; hopa_out_ring = some [] }

-- A host that is set up.
abbrev pub host : Cp (List Pkt)
host = record initial { mbuf_pool = true; hopa_in_out_ring_ins = some empty_rings }

-- A path with a window of 10 µs to 20 µs, and a delay that has risen to 18 µs in a millisecond.
abbrev pub info : CurPathInfo
info = record {
  path_id = 1;
  max_dt = 20000;
  min_dt = 10000;
  last_3_dt_grad = 0;
  last_2_dt_grad = 0;
  last_1_dt_grad = 0;
  cur_dt_grad = 0;
  last_3_dt = 11000;
  last_2_dt = 12000;
  last_1_dt = 13000;
  cur_dt = 18000;
  cur_ts = 3000;
  last_ts = 2000;
  thres_dt = 0;
  delta_t = 0;
}
