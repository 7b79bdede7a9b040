-- ===== src/Hopa/Lcore/Returns.antt =====
-- lcore_stats does not get stuck: with memory, the time and packets that name paths, a round returns.
use repath.Base.{
  ℕ, ◌+◌, ◌≤◌, ◌≡◌, Bool, true, false, some, List, [], ◌∷◌, ◌++◌, ok, take, drop, refl, arith,
  if◌then◌else◌, ltb, sub64, to_u64, ◌*◌, ◌/◌, ◌∙◌, sym,
}
use mathlib.Core.Path.{subst}
use repath.Dpdk.{IsDocumented}
use repath.Dpdk.Ring.{IsRing}
use repath.Hopa.Packet.{burst_size, frame_bytes, Pkt}
use repath.Hopa.Progress.{Cp, Answers, Platform, reset}
use repath.Hopa.Progress.Invariant.{IsValid, in_ring}
use repath.Hopa.Progress.Returns.{IsReady, IsSupplied, NamesPath, rearmed, handle_pkt-Returns}
use repath.Hopa.Lcore.{
  Stats, timer_cb, handle_burst, receive_burst, manage_timer, lcore_stats_round,
}
use repath.Hopa.Lcore.Rounds.{lcore_stats_round_lem}

module _ {Q : Type 0} (pf : Platform Q) where
  -- Every packet of a list is no probe, or comes to the port of a path.
  abbrev pub AllNamePath : List Pkt → Type 0
  AllNamePath [] = Unit {0}
  AllNamePath (p ∷ ps) = NamesPath pf p × AllNamePath ps

module _ {Q : Type 0} (pf : Platform Q) (doc : IsDocumented pf.dpdk)
    (room : frame_bytes ≤ pf.dpdk.data_room) where
  handle_burst-Returns :
      (mbufs : List Pkt) (s : Cp Q) (answers : ℕ → Answers) (i : ℕ)
      → IsReady s
      → ((k : ℕ) → IsSupplied (answers k))
      → AllNamePath pf mbufs
      → (t : Cp Q) × (handle_burst pf s mbufs answers i ≡ ok t) × IsReady t
  unfolding handle_burst
  handle_burst-Returns [] s answers i v u n = (s, refl, v)
  handle_burst-Returns (m ∷ mbufs) s answers i v u n =
      let (t, first, ready) = handle_pkt-Returns pf doc room s m (answers i) v (u i) n.0 in
      let (r, others, still) = handle_burst-Returns mbufs t answers (i + 1) ready u n.1 in
      (r, rw first others, still)

  -- Taking a burst off the incoming ring leaves the host set up.
  taken-IsReady :
      (s : Cp Q) (rest : Q) (v : IsReady s)
      → IsReady
          (record s { hopa_in_out_ring_ins = some (record v.rings { hopa_in_ring = some rest }) })
  taken-IsReady s rest v = record {
    rings = record v.rings { hopa_in_ring = some rest };
    out = v.out;
    info = v.info;
    table = v.table;
    has_pool = v.has_pool;
    has_rings = refl;
    has_out = v.has_out;
    has_info = v.has_info;
    has_step = v.has_step;
  }

  receive_burst-Returns :
      (ring : IsRing pf.ring) (s : Cp Q) (answers : ℕ → Answers) (q : Q)
      → IsReady s
      → ((k : ℕ) → IsSupplied (answers k))
      → in_ring s ≡ some q
      → AllNamePath pf (take burst_size (pf.ring.contents q))
      → (r : Cp Q × List Pkt) × (receive_burst pf s answers ≡ ok r) × IsReady r.0
  unfolding receive_burst
  receive_burst-Returns ring s answers q v u i n =
      let (bufs, rest) = pf.ring.dequeue_burst q burst_size in
      let taken = record s {
        hopa_in_out_ring_ins = some (record v.rings { hopa_in_ring = some rest });
      } in
      let has_in : v.rings.hopa_in_ring ≡ some q = ground (arith, v.has_rings) in
      let (t, runs, ready) =
        handle_burst-Returns bufs taken answers 0 (taken-IsReady s rest v) u
          (subst (AllNamePath pf) (sym (ring.dequeue_lem q burst_size)) n) in
      ((t, bufs), ground (arith, v.has_rings, has_in, runs), ready)

  manage_timer-IsReady :
      (tenth : ℕ) (st : Stats Q) (cur_tsc : ℕ) (fires : Bool)
      → IsReady st.cp
      → IsReady (manage_timer pf tenth st cur_tsc fires).0
        × (in_ring (manage_timer pf tenth st cur_tsc fires).0 ≡ in_ring st.cp)
  unfolding manage_timer timer_cb
  manage_timer-IsReady tenth st cur_tsc fires v =
      let enough = ltb (to_u64 (pf.hz * 10) / 1000) (sub64 cur_tsc st.prev_tsc) in
      by_tests enough fires
    where
      by_tests :
          (enough fires : Bool)
          → let after : Cp Q × ℕ =
              if enough
              then (if fires then timer_cb pf tenth st.cp else st.cp, cur_tsc)
              else (st.cp, st.prev_tsc) in
            IsReady after.0 × (in_ring after.0 ≡ in_ring st.cp)
      by_tests true true = (rearmed (reset tenth ∷ st.cp.retran_timer) v, refl)
      by_tests true false = (v, refl)
      by_tests false fires = (v, refl)

  -- A round of lcore_stats returns at a host that is set up, with a fresh buffer and the time to be
  -- had, if no packet of the burst is a probe to a port of no path. It has then taken the oldest
  -- packets, 32 at most, off the incoming ring and has freed exactly these, in order; the delays
  -- and the best path are valid, and the host is set up as before.
  pub lcore_stats_round-Returns :
      (tenth : ℕ) (st : Stats Q) (cur_tsc : ℕ) (fires : Bool) (answers : ℕ → Answers) (q : Q)
      → IsRing pf.ring
      → IsReady st.cp
      → IsValid st.cp
      → ((k : ℕ) → IsSupplied (answers k))
      → in_ring st.cp ≡ some q
      → AllNamePath pf (take burst_size (pf.ring.contents q))
      → (st' : Stats Q) × (q' : Q) × (lcore_stats_round pf tenth st cur_tsc fires answers ≡ ok st')
        × IsReady st'.cp
        × IsValid st'.cp
        × (st'.freed ≡ st.freed ++ take burst_size (pf.ring.contents q))
        × (in_ring st'.cp ≡ some q')
        × (pf.ring.contents q' ≡ drop burst_size (pf.ring.contents q))
  unfolding lcore_stats_round
  lcore_stats_round-Returns tenth st cur_tsc fires answers q ring v valid u i n =
      let (managed, kept) = manage_timer-IsReady tenth st cur_tsc fires v in
      let (r, runs, ready) = receive_burst-Returns ring _ answers q managed u (kept ∙ i) n in
      let st' : Stats Q = record {
        cp = r.0;
        prev_tsc = (manage_timer pf tenth st cur_tsc fires).1;
        freed = st.freed ++ r.1;
      } in
      let returned : lcore_stats_round pf tenth st cur_tsc fires answers ≡ ok st' = rw runs in
      let (q', valid', freed, left, rest) =
        lcore_stats_round_lem pf tenth st cur_tsc fires answers q ring returned valid i in
      (st', q', returned, ready, valid', freed, left, rest)
