-- ===== src/Ovs/Examples/Threads.antt =====
-- The threads of ovs-vswitchd.c.
use repath.Base.{◌≡◌, ◌≤◌, ◌↔◌, refl, inl, inr, true, some, [], ◌∷◌, ok, fault, arith}
use repath.Ovs.Packet.{path_nb, hopa_cp, probe_flag, HopaCpHdr, Pkt, Cp, yy}
use repath.Ovs.Encode.{encode_probe_pkt, encode_repath_pkt}
use repath.Ovs.Vswitchd.{handle_hdr, hopa_cp_progress}
use repath.Ovs.Encode.Layout.{IsControl, probe_hdr, repath_hdr, vswitchd_encode-IsControl}
use repath.Ovs.Vswitchd.Progress.{HasTable, handle_hdr-fault, hopa_cp_progress-returns}
use repath.Ovs.Examples.Setting.{Ins, Outs, stale, pf, pf-IsDocumented, in-IsRing, at, rings, host}

-- A packet to path 2 goes to the port 8882.
vswitchd_encode-IsControl_example :
    ((p : Pkt) × (encode_probe_pkt pf.dpdk yy true (some stale) (at 100 0) 2 ≡ ok (some p))
      × IsControl pf.dpdk yy 8882 p
      × (p.cp ≡ probe_hdr pf.dpdk (at 100 0) 2)
      × (p.udp.dgram_cksum ≡ 14))
    × ((p : Pkt) × (encode_repath_pkt pf.dpdk yy true (some stale) 2 ≡ ok (some p))
        × IsControl pf.dpdk yy 8882 p
        × (p.cp ≡ repath_hdr 2)
        × (p.udp.dgram_cksum ≡ 14))
vswitchd_encode-IsControl_example =
    vswitchd_encode-IsControl pf.dpdk pf-IsDocumented yy stale refl (omega arith) (at 100 0) 2

-- A probe that names path 4, of which there is none.
abbrev strayed : HopaCpHdr
strayed = probe_hdr pf.dpdk (at 99 0) 4

handle_hdr-fault_example :
    (handle_hdr pf (host [] []) strayed (at 100 0) ≡ fault)
    ↔ ((hopa_cp ≡ 0) × (probe_flag ≡ 0) × (path_nb ≤ 4))
handle_hdr-fault_example = handle_hdr-fault pf (host [] []) strayed (at 100 0) refl

-- A probe and a repath wait in the ring.
abbrev waiting : Ins
waiting = probe_hdr pf.dpdk (at 99 0) 3 ∷ repath_hdr 2 ∷ []

hopa_cp_progress-returns_example :
    (t : Cp Ins Outs) × (q' : Ins) × (hopa_cp_progress pf (host waiting []) (λ i. at 100 i)
      ≡ ok (t, waiting))
    × HasTable t
    × (t.m_hopa_cp_in_out_ring ≡ some (rings q' []))
    × (q' ≡ [])
hopa_cp_progress-returns_example =
    hopa_cp_progress-returns pf (host waiting []) (rings waiting []) waiting (λ i. at 100 i)
      in-IsRing refl refl refl (inr (inr (omega arith)), (inr (inl (omega arith)), tt))
