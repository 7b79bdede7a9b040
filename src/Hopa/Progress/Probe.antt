-- ===== src/Hopa/Progress/Probe.antt =====
-- From the probe of one host to the delay table of the other.
use repath.Base.{
  ℕ, ◌+◌, ◌-◌, ◌^◌, ◌%◌, ◌≤◌, ◌<◌, ◌≡◌, ◌≢◌, true, some, ok, length, set, ◌>>=◌, to_u16, to_u8,
  add64, sub64, arith, refl,
}
use repath.Dpdk.{IsDocumented}
use repath.Hopa.Packet.{
  path_nb, src_port, dst_port_path_1, probe_flag, repath_flag, frame_bytes, Pkt, Timespec,
}
use repath.Hopa.Encode.{nanoseconds, encode_probe_pkt, encode_repath_pkt}
use repath.Hopa.Encode.Layout.{
  probe_pkt, encode_probe_pkt-ok, signal_pkt, IsControl, probe_pkt-IsControl, signal_pkt-IsControl,
  encode_repath_pkt-ok,
}
use repath.Hopa.Paths.{store_delay, get_min_delay_path_id}
use repath.Hopa.Progress.{Cp, Answers, Platform, path_of, hopa_cp_probe_pkt_progress, handle_pkt}

-- A UDP port as it arrives addresses a path exactly if it is one of the four of the probes;
-- `path_id` is 8 bits wide.
module _ {Q : Type 0} (pf : Platform Q) (doc : IsDocumented pf.dpdk) where
  path_of_port :
      (p : Pkt) (port : ℕ)
      → port < 2 ^ 16
      → p.udp.dst_port ≡ pf.dpdk.cpu_to_be_16 port
      → path_of pf p ≡ (port + 2 ^ 16 - dst_port_path_1) % 2 ^ 8
  unfolding path_of
  path_of_port p port h e = rw (e, doc.be_to_cpu-cpu_to_be_16 port h)

  -- What the handler makes of a probe that was sent at the given time: it stores the difference
  -- of the two clocks and a second in the table, and chooses the best path anew.
  abbrev pub probed : Cp Q → ℕ → Timespec → Timespec → Cp Q
  probed s i sent received =
      let delays =
        set s.all_paths_delay_list i
          (add64 (sub64 (nanoseconds received) (nanoseconds sent)) 1000000000) in
      record s { all_paths_delay_list = delays; opt_path_id = get_min_delay_path_id delays path_nb }

  pub handle_pkt-probed :
      (s : Cp Q) (p : Pkt) (sent received : Timespec) (a : Answers) (i : ℕ)
      → length s.all_paths_delay_list ≡ path_nb
      → i < path_nb
      → a.clock ≡ some received
      → IsControl pf.dpdk (to_u16 (dst_port_path_1 - 1 + (i + 1))) probe_flag 0 p
      → p.cp.ts ≡ pf.dpdk.cpu_to_be_64 (nanoseconds sent)
      → handle_pkt pf s p a ≡ ok (probed s i sent received)
  unfolding handle_pkt hopa_cp_probe_pkt_progress store_delay
  handle_pkt-probed s p sent received a i e h c v t = ground (
    arith,
    path_of_port p (to_u16 (dst_port_path_1 - 1 + (i + 1))) (omega arith),
    doc.be_to_cpu-cpu_to_be_16 src_port (omega arith),
    doc.be_to_cpu-cpu_to_be_64 (nanoseconds sent) (omega arith),
  )

  -- The probe that the sender builds for path `i`, counted from 0, arrives unchanged: the receiver
  -- stores the difference of the two clocks and a second at index `i` of its table, chooses the
  -- best path anew, and changes nothing else.
  pub handle_pkt-encode_probe_pkt :
      (s : Cp Q) (m : Pkt) (sent received : Timespec) (a : Answers) (i : ℕ)
      → m.pkt_len ≡ 0
      → frame_bytes ≤ pf.dpdk.data_room
      → length s.all_paths_delay_list ≡ path_nb
      → i < path_nb
      → a.clock ≡ some received
      → (encode_probe_pkt pf.dpdk true (some m) (some sent) (i + 1) >>= λ p. handle_pkt pf s p a)
        ≡ ok (probed s i sent received)
  handle_pkt-encode_probe_pkt s m sent received a i fresh room e h c =
      rw (encode_probe_pkt-ok pf.dpdk doc m fresh room sent (i + 1)) (
        handle_pkt-probed s (probe_pkt pf.dpdk doc m sent (i + 1)) sent received a i e h c
          (probe_pkt-IsControl pf.dpdk doc m fresh room sent (i + 1)) refl)

  -- A repath packet that announces the best path travels on another one: the receiver reads the
  -- index just below from its port, and none of the four where the best path is the first.
  pub encode_repath_pkt-path :
      (m : Pkt) (opt_path_id : ℕ)
      → m.pkt_len ≡ 0
      → frame_bytes ≤ pf.dpdk.data_room
      → opt_path_id < path_nb
      → (p : Pkt) × (encode_repath_pkt pf.dpdk true (some m) opt_path_id (to_u8 opt_path_id) ≡ ok p)
        × (p.cp.repath_id ≡ opt_path_id)
        × (path_of pf p ≡ (opt_path_id + 255) % 2 ^ 8)
        × (path_of pf p ≢ opt_path_id)
  encode_repath_pkt-path m opt_path_id fresh room h =
      let v =
        signal_pkt-IsControl pf.dpdk doc m fresh room repath_flag opt_path_id (to_u8 opt_path_id) in
      let p = signal_pkt pf.dpdk doc repath_flag m opt_path_id (to_u8 opt_path_id) in
      let reads = path_of_port p (to_u16 (dst_port_path_1 - 1 + opt_path_id)) (omega arith) v.to in
      (
        p,
        encode_repath_pkt-ok pf.dpdk doc m fresh room opt_path_id (to_u8 opt_path_id),
        omega arith,
        omega (arith, reads),
        omega (arith, reads),
      )
