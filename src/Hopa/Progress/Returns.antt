-- ===== src/Hopa/Progress/Returns.antt =====
-- The handlers do not get stuck: with memory, a clock and a packet that names a path they return.
use repath.Base.{
  ◌*◌, ◌/◌, ◌%◌, ◌^◌, ◌<◌, ◌≤◌, ◌≡◌, ◌≢◌, ◌⊎◌, Bool, true, false, some, List, [], ◌∷◌, Result, ok,
  length, set, length-set, add64, sub64, to_u64, to_u8, refl, arith, ◌∙◌, ◌==◌, if◌then◌else◌,
}
use repath.Dpdk.{IsDocumented, ipproto_udp}
use repath.Hopa.Packet.{
  path_nb, frame_bytes, Pkt, Timespec, src_port, hopa_cp, hopa_dp, probe_flag, repath_flag,
  repath_ack_flag,
}
use repath.Hopa.Encode.{nanoseconds, encode_repath_ack_pkt, encode_repath_pkt}
use repath.Hopa.Encode.Layout.{encode_repath_ack_pkt-ok, encode_repath_pkt-ok, signal_pkt}
use repath.Hopa.Paths.{get_min_delay_path_id, store_delay}
use repath.Hopa.Check.{CurPathInfo, Weigh, measure, verdict, one_path_check}
use repath.Hopa.Progress.{
  Cp, InOutRing, Answers, Platform, TimerCall, reset, stop, path_of, enqueue_out, handle_pkt,
  hopa_cp_probe_pkt_progress, hopa_cp_repath_pkt_progress, hopa_cp_repath_ack_pkt_progress,
  hopa_dp_ts_pkt_progress,
}

-- A path check whose two times differ, and by no half of the 64-bit range.
abbrev pub HasStep : CurPathInfo → Type 0
HasStep c = sub64 c.cur_ts c.last_ts % 2 ^ 63 ≢ 0

-- A host that is set up.
pub record IsReady {Q : Type 0} (s : Cp Q) : Type 0 where
  pub rings : InOutRing Q
  pub out : Q
  pub info : CurPathInfo
  pub table : length s.all_paths_delay_list ≡ path_nb
  pub has_pool : s.mbuf_pool ≡ true
  pub has_rings : s.hopa_in_out_ring_ins ≡ some rings
  pub has_out : rings.hopa_out_ring ≡ some out
  pub has_info : s.cur_path_info ≡ some info
  pub has_step : HasStep info

-- The outer world has a fresh buffer and the time.
pub record IsSupplied (a : Answers) : Type 0 where
  pub fresh : Pkt
  pub now : Timespec
  pub alloc_lem : a.alloc ≡ some fresh
  pub clock_lem : a.clock ≡ some now
  pub empty : fresh.pkt_len ≡ 0

check-returns :
    (w : Weigh) (c : CurPathInfo)
    → HasStep c
    → (b : Bool) × (g : CurPathInfo) × (one_path_check w c ≡ ok (b, g)) × HasStep g
unfolding one_path_check measure
check-returns w c h =
    let m = measure w c in
    let g = record m { cur_dt_grad = sub64 m.cur_dt m.last_1_dt / m.delta_t } in
    (verdict w g, g, ground arith, h)

module _ {Q : Type 0} (pf : Platform Q) where
  -- A packet that is no probe of the program, or comes to the port of a path.
  abbrev pub NamesPath : Pkt → Type 0
  NamesPath p = (p.cp.flag ≢ hopa_cp) ⊎ (p.cp.cp_flag ≢ probe_flag) ⊎ (path_of pf p < path_nb)

module _ {Q : Type 0} where
  -- The timer and the record of the check may change.
  pub rearmed :
      {s : Cp Q} (calls : List TimerCall) → IsReady s → IsReady (record s { retran_timer = calls })
  rearmed calls v = record {
    rings = v.rings;
    out = v.out;
    info = v.info;
    table = v.table;
    has_pool = v.has_pool;
    has_rings = v.has_rings;
    has_out = v.has_out;
    has_info = v.has_info;
    has_step = v.has_step;
  }

  checked :
      {s : Cp Q} (g : CurPathInfo)
      → IsReady s
      → HasStep g
      → IsReady (record s { cur_path_info = some g })
  checked g v h = record {
    rings = v.rings;
    out = v.out;
    info = g;
    table = v.table;
    has_pool = v.has_pool;
    has_rings = v.has_rings;
    has_out = v.has_out;
    has_info = refl;
    has_step = h;
  }

module _ {Q : Type 0} (pf : Platform Q) (doc : IsDocumented pf.dpdk)
    (room : frame_bytes ≤ pf.dpdk.data_room) where
  -- The code returns, with a host that is still set up.
  abbrev Returns : Result (Cp Q) → Type 0
  Returns r = (t : Cp Q) × (r ≡ ok t) × IsReady t

  if-Returns :
      (b : Bool) {x y : Result (Cp Q)}
      → (b ≡ true → Returns x)
      → Returns y
      → Returns (if b then x else y)
  if-Returns true f y = f refl
  if-Returns false f y = y

  enqueue_out-Returns : (s : Cp Q) (m : Pkt) → IsReady s → Returns (enqueue_out pf s (m ∷ []))
  unfolding enqueue_out
  enqueue_out-Returns s m v =
      let next = (pf.ring.enqueue_burst v.out (m ∷ [])).1 in
      let rings = record v.rings { hopa_out_ring = some next } in
      (
        record s { hopa_in_out_ring_ins = some rings },
        ground (arith, v.has_rings, v.has_out),
        record {
          rings = rings;
          out = next;
          info = v.info;
          table = v.table;
          has_pool = v.has_pool;
          has_rings = refl;
          has_out = refl;
          has_info = v.has_info;
          has_step = v.has_step;
        },
      )

  probe-Returns :
      (s : Cp Q) (p : Pkt) (a : Answers)
      → IsReady s
      → IsSupplied a
      → path_of pf p < path_nb
      → Returns (hopa_cp_probe_pkt_progress pf s p a)
  unfolding hopa_cp_probe_pkt_progress store_delay
  probe-Returns s p a v u h =
      let delays =
        set s.all_paths_delay_list (path_of pf p)
          (add64 (sub64 (nanoseconds u.now) (pf.dpdk.be_to_cpu_64 p.cp.ts)) 1000000000) in
      (
        record s {
          all_paths_delay_list = delays;
          opt_path_id = get_min_delay_path_id delays path_nb;
        },
        ground (arith, u.clock_lem, v.table),
        record {
          rings = v.rings;
          out = v.out;
          info = v.info;
          table = length-set s.all_paths_delay_list (path_of pf p) _ ∙ v.table;
          has_pool = v.has_pool;
          has_rings = v.has_rings;
          has_out = v.has_out;
          has_info = v.has_info;
          has_step = v.has_step;
        },
      )

  repath-Returns :
      (s : Cp Q) (p : Pkt) (a : Answers)
      → IsReady s
      → IsSupplied a
      → Returns (hopa_cp_repath_pkt_progress pf s p a)
  unfolding hopa_cp_repath_pkt_progress
  repath-Returns s p a v u =
      let ack = signal_pkt pf.dpdk doc repath_ack_flag u.fresh s.opt_path_id 0 in
      let (t, runs, w) = enqueue_out-Returns s ack v in
      let encoded : encode_repath_ack_pkt pf.dpdk s.mbuf_pool a.alloc s.opt_path_id ≡ ok ack =
        rw (v.has_pool, u.alloc_lem)
          (encode_repath_ack_pkt-ok pf.dpdk doc u.fresh u.empty room s.opt_path_id) in
      (
        record t { retran_timer = reset (to_u64 (pf.hz * 2)) ∷ t.retran_timer },
        rw encoded (rw runs),
        rearmed (reset (to_u64 (pf.hz * 2)) ∷ t.retran_timer) w,
      )

  repath_ack-Returns :
      (s : Cp Q) (p : Pkt) (a : Answers)
      → IsReady s
      → Returns (hopa_cp_repath_ack_pkt_progress pf s p a)
  unfolding hopa_cp_repath_ack_pkt_progress
  repath_ack-Returns s p a v = (_, refl, rearmed (stop ∷ s.retran_timer) v)

  dp_ts-Returns :
      (s : Cp Q) (p : Pkt) (a : Answers)
      → IsReady s
      → IsSupplied a
      → Returns (hopa_dp_ts_pkt_progress pf s p a)
  unfolding hopa_dp_ts_pkt_progress
  dp_ts-Returns s p a v u =
      let (b, g, check, step) = check-returns pf.weigh v.info v.has_step in
      let t = record s { cur_path_info = some g } in
      let sent = signal_pkt pf.dpdk doc repath_flag u.fresh s.opt_path_id (to_u8 s.opt_path_id) in
      let (r, runs, w) = enqueue_out-Returns t sent (checked g v step) in
      let encoded : encode_repath_pkt pf.dpdk s.mbuf_pool a.alloc s.opt_path_id
            (to_u8 s.opt_path_id)
          ≡ ok sent =
        rw (v.has_pool, u.alloc_lem)
          (encode_repath_pkt-ok pf.dpdk doc u.fresh u.empty room s.opt_path_id
            (to_u8 s.opt_path_id)) in
      rw v.has_info
        (rw check (if-Returns b (λ e. rw encoded (r, runs, w)) (t, refl, checked g v step)))

  -- At a host that is set up, with a fresh buffer and the time to be had, every packet is handled,
  -- unless it is a probe to a port of no path; and the host is set up as before.
  pub handle_pkt-Returns :
      (s : Cp Q) (p : Pkt) (a : Answers)
      → IsReady s
      → IsSupplied a
      → NamesPath pf p
      → (t : Cp Q) × (handle_pkt pf s p a ≡ ok t) × IsReady t
  unfolding handle_pkt
  handle_pkt-Returns s p a v u n =
      let same : Returns (ok s) = (s, refl, v) in
      if-Returns (p.ipv4.next_proto_id == ipproto_udp)
        (λ is_udp.
          if-Returns (pf.dpdk.be_to_cpu_16 p.udp.src_port == src_port)
            (λ from.
              if-Returns (p.cp.flag == hopa_cp)
                (λ is_cp.
                  if-Returns (p.cp.cp_flag == probe_flag)
                    (λ is_probe. probe-Returns s p a v u (ground (arith, n)))
                    (if-Returns (p.cp.cp_flag == repath_flag) (λ e. repath-Returns s p a v u)
                      (if-Returns (p.cp.cp_flag == repath_ack_flag)
                        (λ e. repath_ack-Returns s p a v) same)))
                (if-Returns (p.cp.flag == hopa_dp) (λ e. dp_ts-Returns s p a v u) same))
            same)
        same
