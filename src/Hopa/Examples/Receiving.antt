-- ===== src/Hopa/Examples/Receiving.antt =====
-- The handlers of arriving packets.
use repath.Base.{◌≡◌, ◌≢◌, refl, true, some, List, [], ◌∷◌, ok, ◌>>=◌, arith}
use repath.Hopa.Packet.{Pkt, repath_flag, repath_ack_flag}
use repath.Hopa.Encode.{encode_probe_pkt, encode_repath_pkt}
use repath.Hopa.Encode.Layout.{probe_pkt, signal_pkt, probe_pkt-IsControl}
use repath.Hopa.Check.{CurPathInfo, one_path_check, measure, verdict}
use repath.Hopa.Progress.{Cp, path_of, initial, handle_pkt}
use repath.Hopa.Progress.Invariant.{IsValid, initial-IsValid, handle_pkt-IsValid}
use repath.Hopa.Progress.Probe.{
  probed, handle_pkt-probed, handle_pkt-encode_probe_pkt, encode_repath_pkt-path,
}
use repath.Hopa.Examples.Setting.{stale, pf, pf-IsDocumented, at, answers, host, info}

-- The probe for the second path, sent at 99 seconds.
abbrev probe : Pkt
probe = probe_pkt pf.dpdk pf-IsDocumented stale (at 99 0) 2

abbrev measured : Cp (List Pkt)
measured = probed pf pf-IsDocumented host 1 (at 99 0) (at 100 5000)

-- The table after the probe: a second on the way, 5 µs more, and a second on top.
measured_delays :
    measured.all_paths_delay_list ≡ 0xFFFFFFFF ∷ 2000005000 ∷ 0xFFFFFFFF ∷ 0xFFFFFFFF ∷ []
measured_delays = refl

probe_handled : handle_pkt pf host probe answers ≡ ok measured
probe_handled =
    handle_pkt-probed pf pf-IsDocumented host probe (at 99 0) (at 100 5000) answers 1 refl
      (omega arith) refl
      (probe_pkt-IsControl pf.dpdk pf-IsDocumented stale refl (omega arith) (at 99 0) 2) refl

host-IsValid : IsValid host
host-IsValid =
    let start : IsValid (initial {Q = List Pkt}) = initial-IsValid in
    record { table = start.table; best = start.best }

handle_pkt-IsValid_example : IsValid measured
handle_pkt-IsValid_example = handle_pkt-IsValid pf host probe answers probe_handled host-IsValid

-- A probe from the right port to port 80.
abbrev strayed : Pkt
strayed = record probe { udp = record probe.udp { dst_port = pf.dpdk.cpu_to_be_16 80 } }

handle_pkt-encode_probe_pkt_example :
    (encode_probe_pkt pf.dpdk true (some stale) (some (at 99 0)) 2 >>= λ p.
    handle_pkt pf host p answers)
    ≡ ok measured
handle_pkt-encode_probe_pkt_example =
    handle_pkt-encode_probe_pkt pf pf-IsDocumented host stale (at 99 0) (at 100 5000) answers 1 refl
      (omega arith) refl (omega arith) refl

encode_repath_pkt-path_example :
    (p : Pkt) × (encode_repath_pkt pf.dpdk true (some stale) 2 2 ≡ ok p)
    × (p.cp.repath_id ≡ 2)
    × (path_of pf p ≡ 1)
    × (path_of pf p ≢ 2)
encode_repath_pkt-path_example =
    encode_repath_pkt-path pf pf-IsDocumented stale 2 refl (omega arith) (omega arith)

-- The packets that the two programs send each other for a change of path.
abbrev repath_pkt : Pkt
repath_pkt = signal_pkt pf.dpdk pf-IsDocumented repath_flag stale 0 0

abbrev ack : Pkt
ack = signal_pkt pf.dpdk pf-IsDocumented repath_ack_flag stale 0 0

-- A path whose delay asks for another one.
abbrev info_after : CurPathInfo
info_after = record info { thres_dt = 17000; delta_t = 1000; cur_dt_grad = 5 }

info_checked : one_path_check pf.weigh info ≡ ok (true, info_after)
unfolding one_path_check measure verdict
info_checked = refl
