-- ===== src/Hopa/Lcore/Rounds.antt =====
-- What a round of lcore_stats and of lcore_probe achieves.
use repath.Base.{
  ℕ, zero, suc, ◌+◌, ◌<◌, ◌≤◌, ◌≡◌, Bool, true, Option, some, List, [], ◌∷◌, ◌++◌, ok, ◌>>=◌, take,
  drop, length, deref, set, length-set, add64, sub64, refl, arith, ◌∙◌, ap, >>=-eq-ok,
}
use repath.Dpdk.{IsDocumented}
use repath.Dpdk.Ring.{IsRing}
use repath.Hopa.Packet.{burst_size, path_nb, frame_bytes, Pkt, Timespec}
use repath.Hopa.Encode.{nanoseconds}
use repath.Hopa.Encode.Layout.{probe_pkt, encode_probe_pkt-ok, probe_pkt-IsControl}
use repath.Hopa.Paths.{get_min_delay_path_id}
use repath.Hopa.Progress.{Cp, Answers, Platform, handle_pkt}
use repath.Hopa.Progress.Invariant.{IsValid, in_ring, handle_pkt-IsValid, handle_pkt-in_ring}
use repath.Hopa.Progress.Probe.{probed, handle_pkt-probed}
use repath.Hopa.Lcore.{
  Stats, encode_probes, handle_burst, receive_burst, manage_timer, lcore_stats_round,
}

module _ {Q : Type 0} (pf : Platform Q) where
  handle_burst-kept :
      (mbufs : List Pkt) (s : Cp Q) (answers : ℕ → Answers) (i : ℕ) {t : Cp Q}
      → handle_burst pf s mbufs answers i ≡ ok t
      → IsValid s
      → IsValid t × (in_ring t ≡ in_ring s)
  unfolding handle_burst
  handle_burst-kept [] s answers i e v = ground arith
  handle_burst-kept (m ∷ mbufs) s answers i e v =
      let (t, first, others) = >>=-eq-ok (handle_pkt pf s m (answers i)) _ e in
      let (valid, ring) =
        handle_burst-kept mbufs t answers (i + 1) others
          (handle_pkt-IsValid pf s m (answers i) first v) in
      (valid, ring ∙ handle_pkt-in_ring pf s m (answers i) first)

  -- What a burst that was received and handled leaves.
  record Received (s : Cp Q) (q : Q) (r : Cp Q × List Pkt) : Type 0 where
    valid : IsValid r.0
    burst : r.1 ≡ take burst_size (pf.ring.contents q)
    left : in_ring r.0 ≡ some (pf.ring.dequeue_burst q burst_size).1

  receive_burst-Received :
      (ring : IsRing pf.ring) (s : Cp Q) (answers : ℕ → Answers) (q : Q) {r : Cp Q × List Pkt}
      → receive_burst pf s answers ≡ ok r
      → IsValid s
      → in_ring s ≡ some q
      → Received s q r
  unfolding receive_burst
  receive_burst-Received ring s answers q {r} e v i =
      let (rings, e₁, rest₁) = >>=-eq-ok (deref s.hopa_in_out_ring_ins) _ e in
      let (p, e₂, rest₂) = >>=-eq-ok (deref rings.hopa_in_ring) _ rest₁ in
      let (t, e₃, rest₃) = >>=-eq-ok (handle_burst pf _ _ answers 0) _ rest₂ in
      let same : p ≡ q = ground arith in
      let (valid, kept) =
        handle_burst-kept _ _ answers 0 e₃ (record { table = v.table; best = v.best }) in
      let shape : r ≡ (t, (pf.ring.dequeue_burst p burst_size).0) = ground arith in
      record {
        valid = rw shape valid;
        burst = rw shape (rw same (ring.dequeue_lem q burst_size));
        left = rw shape (rw (← same) kept);
      }

  manage_timer-kept :
      (tenth : ℕ) (st : Stats Q) (cur_tsc : ℕ) (fires : Bool)
      → IsValid st.cp
      → IsValid (manage_timer pf tenth st cur_tsc fires).0
        × (in_ring (manage_timer pf tenth st cur_tsc fires).0 ≡ in_ring st.cp)
  unfolding manage_timer
  manage_timer-kept tenth st cur_tsc fires v = ground arith

  -- A round of lcore_stats that returns has taken the oldest packets, 32 at most, off the incoming
  -- ring and has freed exactly these, in order; the delays and the best path are still valid.
  pub lcore_stats_round_lem :
      (tenth : ℕ) (st : Stats Q) (cur_tsc : ℕ) (fires : Bool) (answers : ℕ → Answers) (q : Q)
      {st' : Stats Q}
      → IsRing pf.ring
      → lcore_stats_round pf tenth st cur_tsc fires answers ≡ ok st'
      → IsValid st.cp
      → in_ring st.cp ≡ some q
      → (q' : Q) × IsValid st'.cp
        × (st'.freed ≡ st.freed ++ take burst_size (pf.ring.contents q))
        × (in_ring st'.cp ≡ some q')
        × (pf.ring.contents q' ≡ drop burst_size (pf.ring.contents q))
  unfolding lcore_stats_round
  lcore_stats_round_lem tenth st cur_tsc fires answers q {st'} ring e v i =
      let start = manage_timer-kept tenth st cur_tsc fires v in
      let (r, e₁, rest₁) =
        >>=-eq-ok (receive_burst pf (manage_timer pf tenth st cur_tsc fires).0 answers) _ e in
      let done = receive_burst-Received ring _ answers q e₁ start.0 (start.1 ∙ i) in
      let shape : st' ≡ record {
        cp = r.0;
        prev_tsc = (manage_timer pf tenth st cur_tsc fires).1;
        freed = st.freed ++ r.1;
      } =
        ground arith in
      (
        (pf.ring.dequeue_burst q burst_size).1,
        rw shape done.valid,
        rw shape (ap (◌++◌ st.freed) done.burst),
        rw shape done.left,
        ring.contents-dequeue q burst_size,
      )

-- Four writes fill a table of four.
set_all_four :
    (l : List ℕ) (a b c d : ℕ)
    → length l ≡ 4
    → set (set (set (set l 0 a) 1 b) 2 c) 3 d ≡ a ∷ b ∷ c ∷ d ∷ []
set_all_four (x ∷ y ∷ z ∷ w ∷ []) a b c d e = refl
set_all_four [] a b c d e = absurd (omega arith)
set_all_four (x ∷ []) a b c d e = absurd (omega arith)
set_all_four (x ∷ y ∷ []) a b c d e = absurd (omega arith)
set_all_four (x ∷ y ∷ z ∷ []) a b c d e = absurd (omega arith)
set_all_four (x ∷ y ∷ z ∷ w ∷ v ∷ l) a b c d e = absurd (omega arith)

-- The four probes of a round of lcore_probe.
module _ {Q : Type 0} (pf : Platform Q) (doc : IsDocumented pf.dpdk)
    (room : frame_bytes ≤ pf.dpdk.data_room) (fresh : ℕ → Pkt)
    (empty : (i : ℕ) → (fresh i).pkt_len ≡ 0) (sent : ℕ → Timespec) where
  abbrev probes : ℕ → ℕ → List Pkt
  probes i zero = []
  probes i (suc n) = probe_pkt pf.dpdk doc (fresh i) (sent i) (i + 1) ∷ probes (i + 1) n

  abbrev pub answers_sent : ℕ → Answers
  answers_sent i = record { alloc = some (fresh i); clock = some (sent i) }

  encode_probes-ok :
      (s : Cp Q) (i n : ℕ)
      → s.mbuf_pool ≡ true
      → encode_probes pf s answers_sent i n ≡ ok (probes i n)
  unfolding encode_probes
  encode_probes-ok s i zero p = refl
  encode_probes-ok s i (suc n) p = rw p (
      rw (encode_probe_pkt-ok pf.dpdk doc (fresh i) (empty i) room (sent i) (i + 1))
        (rw (encode_probes-ok s (i + 1) n p)))

  -- The delay that the handler computes for path `i`.
  abbrev pub delay : (ℕ → Timespec) → ℕ → ℕ
  delay received i = add64 (sub64 (nanoseconds (received i)) (nanoseconds (sent i))) 1000000000

  -- A round of probes that is built from fresh buffers with room, and that arrives whole and in
  -- order as one burst at a table of four delays, is handled without a fault: the table then holds
  -- the four delays just measured, whatever it held, and the best path is the first with the least
  -- of them.
  pub handle_burst-encode_probes :
      (s t : Cp Q) (received : ℕ → Timespec) (others : ℕ → Option Pkt)
      → s.mbuf_pool ≡ true
      → length t.all_paths_delay_list ≡ path_nb
      → let delays =
          delay received 0 ∷ delay received 1 ∷ delay received 2 ∷ delay received 3 ∷ [] in
        (encode_probes pf s answers_sent 0 path_nb >>= λ mbufs.
        handle_burst pf t mbufs (λ i. record { alloc = others i; clock = some (received i) }) 0)
        ≡ ok (record t {
          all_paths_delay_list = delays;
          opt_path_id = get_min_delay_path_id delays path_nb;
        })
  unfolding handle_burst
  handle_burst-encode_probes s t received others p e = rw (encode_probes-ok s 0 path_nb p) (
      rw (step t 0 e (omega arith)) (
        rw (step t₁ 1 e₁ (omega arith)) (
          rw (step t₂ 2 e₂ (omega arith)) (
            rw (step t₃ 3 e₃ (omega arith)) (
              rw (
                set_all_four t.all_paths_delay_list (delay received 0) (delay received 1)
                  (delay received 2) (delay received 3) e))))))
    where
      answers : ℕ → Answers
      answers i = record { alloc = others i; clock = some (received i) }

      next : Cp Q → ℕ → Cp Q
      next u i = probed pf doc u i (sent i) (received i)

      step :
          (u : Cp Q) (i : ℕ)
          → length u.all_paths_delay_list ≡ path_nb
          → i < path_nb
          → handle_pkt pf u (probe_pkt pf.dpdk doc (fresh i) (sent i) (i + 1)) (answers i)
            ≡ ok (next u i)
      step u i l h =
          handle_pkt-probed pf doc u (probe_pkt pf.dpdk doc (fresh i) (sent i) (i + 1)) (sent i)
            (received i) (answers i) i l h refl
            (probe_pkt-IsControl pf.dpdk doc (fresh i) (empty i) room (sent i) (i + 1)) refl

      t₁ : Cp Q
      t₁ = next t 0

      t₂ : Cp Q
      t₂ = next t₁ 1

      t₃ : Cp Q
      t₃ = next t₂ 2

      e₁ : length t₁.all_paths_delay_list ≡ path_nb
      e₁ = length-set t.all_paths_delay_list 0 _ ∙ e

      e₂ : length t₂.all_paths_delay_list ≡ path_nb
      e₂ = length-set t₁.all_paths_delay_list 1 _ ∙ e₁

      e₃ : length t₃.all_paths_delay_list ≡ path_nb
      e₃ = length-set t₂.all_paths_delay_list 2 _ ∙ e₂
