-- ===== src/Backup/Examples.antt =====
-- The earlier programs at concrete inputs.
use repath.Base.{
  ℕ, ◌≡◌, Bool, true, false, List, [], ◌∷◌, ◌++◌, length, arith, pos, min, replicate, ltb,
}
use repath.Port.{EthDev}
use repath.Backup.Probe.{Pkt}
use repath.Backup.Forward.{Ports, IsPorts, Moved, lcore_main_round, backup_lcore_main_round_lem}
use repath.Backup.Count.{Counter, Turn, burst, display}
use repath.Backup.Start.{Start}

abbrev buffer : Pkt
buffer = record {
  pkt_len = 0;
  eth = record { s_addr = []; d_addr = []; ether_type = 7 };
  ipv4 = record {
    version_ihl = 1;
    type_of_service = 2;
    total_length = 3;
    packet_id = 4;
    fragment_offset = 5;
    time_to_live = 6;
    next_proto_id = 6;
    hdr_checksum = 8;
    src_addr = 9;
    dst_addr = 10;
  };
  udp = record { src_port = 11; dst_port = 12; dgram_len = 13; dgram_cksum = 14 };
  cp = tt;
}

-- A port that takes the first three packets of four.
abbrev three_taken : ℕ → Bool
three_taken i = ltb i 3

-- Each port receives three packets and takes two.
abbrev ports : Ports
ports = record { rx_burst = λ port. replicate 3 buffer; tx_burst = λ port k. min 2 k }

ports-IsPorts : IsPorts ports
ports-IsPorts = record { tx-le = λ port k. omega arith }

backup_lcore_main_round_lem_example :
    (zeroth : Moved) × (first : Moved) × (lcore_main_round ports ≡ zeroth ∷ first ∷ [])
    × (zeroth.to ≡ 1)
    × (zeroth.sent ++ zeroth.freed ≡ replicate 3 buffer)
    × (length zeroth.sent ≡ 2)
    × (first.to ≡ 0)
    × (first.sent ++ first.freed ≡ replicate 3 buffer)
    × (length first.sent ≡ 2)
backup_lcore_main_round_lem_example = backup_lcore_main_round_lem ports ports-IsPorts

-- The counter at the start, and a burst of two between two displays.
abbrev fresh_counter : Counter
fresh_counter = record {
  total = 0;
  total_last = 0;
  ipv4_tuple = record { src_addr = 0; dst_addr = 0; sport = 0; dport = 0 };
  freed = [];
}

abbrev turns : List Turn
turns = display ∷ burst (buffer ∷ buffer ∷ []) ∷ display ∷ []

-- Two devices whose every call succeeds.
abbrev dev : EthDev
dev = record {
  is_valid_port = true;
  answer = λ c. pos 0;
  can_fast_free = false;
  adjusted_rxd = 1024;
  adjusted_txd = 1024;
}

abbrev two_ports : Start
two_ports = record { eal = true; devs = dev ∷ dev ∷ []; pool = true }
