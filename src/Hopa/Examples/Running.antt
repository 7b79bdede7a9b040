-- ===== src/Hopa/Examples/Running.antt =====
-- The loops of the lcores and the start of the program.
use repath.Base.{
  ℕ, ◌+◌, ◌-◌, ◌*◌, ◌≡◌, ◌↔◌, ◌++◌, refl, inl, true, false, some, none, List, [], ◌∷◌, ok, ◌>>=◌,
  take, drop, arith, pos, is_nonzero,
}
use repath.Port.{EthDev, port_init, hopa_cp_conf, rx_queues, tx_queues, call_or}
use repath.Hopa.Packet.{Pkt, Timespec}
use repath.Hopa.Paths.{get_min_delay_path_id}
use repath.Hopa.Progress.{Cp, initial}
use repath.Hopa.Progress.Invariant.{IsValid, initial-IsValid, in_ring}
use repath.Hopa.Lcore.{Stats, encode_probes, handle_burst, lcore_stats_round}
use repath.Hopa.Progress.Returns.{IsReady, IsSupplied}
use repath.Hopa.Lcore.Returns.{lcore_stats_round-Returns}
use repath.Hopa.Lcore.Rounds.{handle_burst-encode_probes, answers_sent}
use repath.Hopa.Main.Args.{params, parse_args, Bytes, sender_option, Accepts, parse_args-Accepts}
use repath.Hopa.Main.Boot.{Start, lcore_stats, get_ring_instance, boot}
use repath.Hopa.Main.Forward.{Nic, IsNic}
use repath.Hopa.Examples.Setting.{
  stale, pf, pf-IsDocumented, pf-IsRing, at, answers, empty_rings, host, info,
}

-- A host with a foreign packet in its incoming ring.
abbrev pub one_waits : Cp (List Pkt)
one_waits = record host {
  cur_path_info = some info;
  hopa_in_out_ring_ins = some (record empty_rings { hopa_in_ring = some (stale ∷ []) });
}

abbrev pub before : Stats (List Pkt)
before = record { cp = one_waits; prev_tsc = 0; freed = [] }

pub one_waits-IsValid : IsValid one_waits
one_waits-IsValid =
    let start : IsValid (initial {Q = List Pkt}) = initial-IsValid in
    record { table = start.table; best = start.best }

pub one_waits-IsReady : IsReady one_waits
one_waits-IsReady = record {
  rings = record empty_rings { hopa_in_ring = some (stale ∷ []) };
  out = [];
  info = info;
  table = refl;
  has_pool = refl;
  has_rings = refl;
  has_out = refl;
  has_info = refl;
  has_step = omega arith;
}

pub answers-IsSupplied : IsSupplied answers
answers-IsSupplied = record {
  fresh = stale;
  now = at 100 5000;
  alloc_lem = refl;
  clock_lem = refl;
  empty = refl;
}

lcore_stats_round-Returns_example :
    (st' : Stats (List Pkt)) × (q' : List Pkt) × (lcore_stats_round pf 100 before 5 false
        (λ i. answers)
      ≡ ok st')
    × IsReady st'.cp
    × IsValid st'.cp
    × (st'.freed ≡ [] ++ take 32 (stale ∷ []))
    × (in_ring st'.cp ≡ some q')
    × (q' ≡ drop 32 (stale ∷ []))
lcore_stats_round-Returns_example =
    lcore_stats_round-Returns pf pf-IsDocumented (omega arith) 100 before 5 false (λ i. answers)
      (stale ∷ []) pf-IsRing one_waits-IsReady one_waits-IsValid (λ k. answers-IsSupplied) refl
      (inl (omega arith), tt)

-- Four probes, one a second, each faster than the one before.
abbrev sent : ℕ → Timespec
sent i = at (99 + i) 0

abbrev received : ℕ → Timespec
received i = at (99 + i) (9000 - 1000 * i)

handle_burst-encode_probes_example :
    let delays : List ℕ = 1000009000 ∷ 1000008000 ∷ 1000007000 ∷ 1000006000 ∷ [] in
    (encode_probes pf host
        (answers_sent pf pf-IsDocumented (omega arith) (λ i. stale) (λ i. refl) sent)
        0
        4
      >>= λ mbufs.
          handle_burst pf host mbufs (λ i. record { alloc = none; clock = some (received i) }) 0)
    ≡ ok (record host {
      all_paths_delay_list = delays;
      opt_path_id = get_min_delay_path_id delays 4;
    })
handle_burst-encode_probes_example =
    handle_burst-encode_probes pf pf-IsDocumented (omega arith) (λ i. stale) (λ i. refl) sent host
      host received (λ i. none) refl refl

-- -s 1
abbrev sender_args : List Bytes
sender_args = sender_option ∷ (b'1' ∷ []) ∷ []

parse_args-Accepts_example : (parse_args 0 sender_args ≡ params 1) ↔ Accepts 0 sender_args 1
parse_args-Accepts_example = parse_args-Accepts 0 sender_args 1

-- A device whose every call succeeds, and answers with which main reaches its loop.
abbrev dev : EthDev
dev = record {
  is_valid_port = true;
  answer = λ c. pos 0;
  can_fast_free = true;
  adjusted_rxd = 1024;
  adjusted_txd = 1024;
}

abbrev start : Start (List Pkt)
start = record {
  eal = true;
  pool = true;
  dev = dev;
  malloc = true;
  in_ring = some [];
  out_ring = none;
}

abbrev started : Cp (List Pkt)
started = record initial {
  mbuf_pool = true;
  hopa_in_out_ring_ins = some (record { hopa_in_ring = some []; hopa_out_ring = none });
}

dev_passes : is_nonzero (port_init dev hopa_cp_conf).0 ≡ false
unfolding port_init rx_queues tx_queues call_or
dev_passes = refl

booted : boot start 0 initial ≡ ok (started, lcore_stats)
unfolding boot get_ring_instance
booted = rw dev_passes

-- A port that takes one packet a call.
abbrev pub one_by_one : Nic
one_by_one = record { tx = λ n k. k - (k - 1) }

unfoldable pub one_by_one-IsNic : IsNic one_by_one
one_by_one-IsNic = record {
  wait = λ n. 0;
  patience = 1;
  tx-le = λ n k. omega arith;
  wait-lt = λ n. omega arith;
  tx_pos = λ n k z p. omega arith;
  wait_next = λ n p. omega arith;
}

abbrev sending : Cp (List Pkt)
sending = record host {
  hopa_in_out_ring_ins =
      some (record { hopa_in_ring = some []; hopa_out_ring = some (stale ∷ stale ∷ []) });
}
