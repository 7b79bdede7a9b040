-- ===== src/Ovs/Examples/Path.antt =====
-- The datapath: where control packets leave and enter it.
use repath.Base.{ℕ, ◌≡◌, refl, true, none, some, List, [], ◌∷◌, ok, fault, take, arith, replicate}
use repath.Ovs.Packet.{Pkt, cq}
use repath.Ovs.Encode.{encode_probe_pkt}
use repath.Ovs.Vswitchd.{get_min_delay_path_id, handle_hdr}
use repath.Ovs.Encode.Layout.{probe_hdr, packet}
use repath.Ovs.Datapath.Recirculate.Select.{control_hdrs, probe_arrives}
use repath.Ovs.Datapath.Receive.{Device, netdev_dpdk_rxq_recv}
use repath.Ovs.Datapath.Receive.Injection.{rxq_recv-overflow}
use repath.Ovs.Examples.Setting.{Outs, stale, pf, pf-IsDocumented, out-IsRing, at, rings, host}

-- A probe, and a packet that is none.
abbrev probe : Pkt
probe = packet pf.dpdk pf-IsDocumented cq stale 3 (probe_hdr pf.dpdk (at 99 0) 3)

probe_arrives_example :
    let delays : List ℕ = 0xFFFFFFFF ∷ 0xFFFFFFFF ∷ 0xFFFFFFFF ∷ 2000000000 ∷ [] in
    (p : Pkt) × (encode_probe_pkt pf.dpdk cq true (some stale) (at 99 0) 3 ≡ ok (some p))
    × (control_hdrs pf (p ∷ []) ≡ p.cp ∷ [])
    × (handle_hdr pf (host [] []) p.cp (at 100 0)
        ≡ ok (record (host [] []) {
          all_paths_delay_list = delays;
          best_path_id = get_min_delay_path_id delays 4;
        }))
probe_arrives_example =
    probe_arrives pf pf-IsDocumented cq (host [] []) stale (at 99 0) (at 100 0) 3 refl (omega arith)
      refl (omega arith)

-- The port pf1hpf, with one packet waiting in the hardware.
abbrev dev : Device
dev = record {
  is_up = true;
  is_pf1hpf = true;
  rx_burst = λ n. take n (stale ∷ []);
  policer = none;
  rx_queue_count = 5;
  has_buffer = λ i. true;
  rx_dropped = 0;
}

abbrev many : Outs
many = replicate 33 (some stale)

rxq_recv-overflow_example : netdev_dpdk_rxq_recv pf dev (host [] many) ≡ fault
rxq_recv-overflow_example =
    rxq_recv-overflow pf dev (host [] many) (rings [] many) many out-IsRing refl refl refl refl
      (omega arith)
