-- ===== src/Hopa/Lcore.antt =====
-- The loops of the two lcores of hopa_cp.c: lcore_probe of the sender and lcore_stats of the
-- receiver, one round each. The sleep of lcore_probe is left out.
pub mod Rounds
pub mod Returns
use repath.Base.{
  ℕ, zero, suc, ◌+◌, ◌*◌, ◌/◌, Bool, Option, none, some, List, [], ◌∷◌, ◌++◌, Result, ok, ◌>>=◌,
  ◌>>◌, deref, ltb, if◌then◌else◌, sub64, to_u64,
}
use repath.Hopa.Packet.{burst_size, path_nb, Pkt}
use repath.Hopa.Encode.{encode_probe_pkt}
use repath.Hopa.Check.{CurPathInfo}
use repath.Hopa.Progress.{
  Cp, InOutRing, Answers, Platform, TimerCall, reset, enqueue_out, handle_pkt,
}

-- The locals of lcore_stats that outlive a round, and the buffers freed so far, in order.
pub record Stats (Q : Type 0) : Type 0 where
  pub cp : Cp Q
  pub prev_tsc : ℕ
  pub freed : List Pkt

-- What lcore_stats does before its loop: malloc of cur_path_info, whose bytes are whatever they are,
-- or the null pointer.
pub lcore_stats_start : {Q : Type 0} → Cp Q → Option CurPathInfo → Cp Q
lcore_stats_start s malloc = record s { cur_path_info = malloc }

module _ {Q : Type 0} (pf : Platform Q) where
  -- for (i = 0; i < PATH_NB; i++) mbufs[i] = encode_probe_pkt(i + 1), with so many rounds left.
  pub encode_probes : Cp Q → (ℕ → Answers) → ℕ → ℕ → Result (List Pkt)
  encode_probes s answers i zero = ok []
  encode_probes s answers i (suc rounds) = do
    mbuf ← encode_probe_pkt pf.dpdk s.mbuf_pool (answers i).alloc (answers i).clock (i + 1)
    mbufs ← encode_probes s answers (i + 1) rounds
    ok (mbuf ∷ mbufs)

  -- One round of lcore_probe.
  pub lcore_probe_round : Cp Q → (ℕ → Answers) → Result (Cp Q)
  lcore_probe_round s answers = do mbufs ← encode_probes s answers 0 path_nb; enqueue_out pf s mbufs

  -- timer_cb arms the timer again; `tenth` is rte_get_timer_hz() * 0.1 in double arithmetic.
  pub timer_cb : ℕ → Cp Q → Cp Q
  timer_cb tenth s = record s { retran_timer = reset tenth ∷ s.retran_timer }

  -- The handling of the packets of a burst, in order; `i` counts them.
  pub handle_burst : Cp Q → List Pkt → (ℕ → Answers) → ℕ → Result (Cp Q)
  handle_burst s [] answers i = ok s
  handle_burst s (mbuf ∷ mbufs) answers i = do
    t ← handle_pkt pf s mbuf (answers i)
    handle_burst t mbufs answers (i + 1)

  -- rte_ring_mc_dequeue_burst and the loop over what it returns: the state afterwards and the burst.
  pub receive_burst : Cp Q → (ℕ → Answers) → Result (Cp Q × List Pkt)
  receive_burst s answers = do
    rings ← deref s.hopa_in_out_ring_ins
    ring ← deref rings.hopa_in_ring
    let (bufs, rest) = pf.ring.dequeue_burst ring burst_size
    let taken = record s { hopa_in_out_ring_ins = some (record rings { hopa_in_ring = some rest }) }
    handled ← handle_burst taken bufs answers 0
    ok (handled, bufs)

  -- The timer's part of a round: the state and the new prev_tsc.
  pub manage_timer : ℕ → Stats Q → ℕ → Bool → Cp Q × ℕ
  unfolding timer_cb
  manage_timer tenth st cur_tsc fires =
      let timer_resolution_cycles = to_u64 (pf.hz * 10) / 1000 in
      if ltb timer_resolution_cycles (sub64 cur_tsc st.prev_tsc)
      then (if fires then timer_cb tenth st.cp else st.cp, cur_tsc)
      else (st.cp, st.prev_tsc)

  -- One round of lcore_stats. `cur_tsc` is the cycle counter, and `fires` says whether
  -- rte_timer_manage finds the timer expired. At its end every buffer of the burst is freed.
  pub lcore_stats_round : ℕ → Stats Q → ℕ → Bool → (ℕ → Answers) → Result (Stats Q)
  lcore_stats_round tenth st cur_tsc fires answers = do
    let (managed, prev_tsc) = manage_timer tenth st cur_tsc fires
    (handled, bufs) ← receive_burst managed answers
    ok (record { cp = handled; prev_tsc = prev_tsc; freed = st.freed ++ bufs })
