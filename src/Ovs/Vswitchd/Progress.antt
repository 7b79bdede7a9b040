-- ===== src/Ovs/Vswitchd/Progress.antt =====
-- What the control plane of ovs-vswitchd.c does with the headers that come in.
use repath.Base.{
  ℕ, zero, suc, ◌+◌, ◌-◌, ◌^◌, ◌≤◌, ◌<◌, ◌≡◌, ◌≢◌, ◌↔◌, ◌⊎◌, refl, ◌∙◌, ap, sym, exited, [], ◌∷◌,
  take, drop, some, List, Result, ok, fault, length, set, length-set, arith, add64, sub64, get_or,
  ltb, if◌then◌else◌,
}
use repath.Ovs.Packet.{path_nb, hopa_cp, probe_flag, HopaCpHdr, Cp, InOutRing}
use mathlib.Core.Path.{subst}
use repath.Dpdk.Ring.{IsRing}
use repath.Hopa.Paths.Minimum.{IsFirstMin}
use repath.Hopa.Paths
use repath.Hopa.Paths.Minimum
use repath.Ovs.Encode.{Timespec, nanoseconds}
use repath.Ovs.Vswitchd.{
  Platform, min_delay_from, get_min_delay_path_id, hopa_cp_probe_pkt_progress,
  hopa_cp_repath_pkt_progress, hopa_cp_repath_ack_pkt_progress, handle_hdr, handle_hdrs,
  hopa_cp_progress,
}

-- The index of the loop does not wrap, so the search is the one of hopa_cp.c.
min_delay_from-eq :
    (delays : List ℕ) (rounds i p : ℕ)
    → i + rounds < 2 ^ 8
    → min_delay_from delays rounds i p ≡ Paths.min_delay_from delays rounds i p
unfolding min_delay_from Paths.min_delay_from
min_delay_from-eq delays zero i p h = refl
min_delay_from-eq delays (suc rounds) i p h =
    ap
      (λ (k : ℕ).
        min_delay_from delays rounds k
          (if ltb (get_or delays i 0) (get_or delays p 0) then i else p))
      (omega arith)
    ∙ min_delay_from-eq delays rounds (i + 1) _ (omega arith)

-- For every length that 8 bits hold, but 0, the function returns the first of the least delays.
pub vswitchd_get_min_delay_path_id-IsFirstMin :
    (delays : List ℕ) (n : ℕ)
    → 0 < n
    → n < 2 ^ 8
    → IsFirstMin delays n (get_min_delay_path_id delays n)
unfolding get_min_delay_path_id Paths.get_min_delay_path_id
vswitchd_get_min_delay_path_id-IsFirstMin delays n h k =
    rw (min_delay_from-eq delays (n - 1) 1 0 (omega arith))
      (Minimum.get_min_delay_path_id-IsFirstMin delays n h)

-- The table has an entry for each path.
abbrev pub HasTable : {I O : Type 0} → Cp I O → Type 0
HasTable s = length s.all_paths_delay_list ≡ path_nb

-- A header that the handlers can digest: a probe names one of the four paths.
abbrev pub NamesPath : HopaCpHdr → Type 0
NamesPath hdr = (hdr.flag ≢ hopa_cp) ⊎ (hdr.cp_flag ≢ probe_flag) ⊎ (hdr.probe_path_id < path_nb)

module _ {I O : Type 0} (pf : Platform I O) where
  -- Handling a header is undefined exactly for a probe that names none of the four paths: the path
  -- id of the packet is an index that nothing checks.
  pub handle_hdr-fault :
      (s : Cp I O) (hdr : HopaCpHdr) (ts : Timespec)
      → HasTable s
      → (handle_hdr pf s hdr ts ≡ fault)
        ↔ ((hdr.flag ≡ hopa_cp) × (hdr.cp_flag ≡ probe_flag) × (path_nb ≤ hdr.probe_path_id))
  unfolding handle_hdr hopa_cp_probe_pkt_progress
  handle_hdr-fault s hdr ts e = (λ h. ground arith, λ h. ground arith)

  -- A probe that was sent at a time, and that names one of the paths, is stored.
  pub handle_hdr-probe :
      (s : Cp I O) (hdr : HopaCpHdr) (sent received : Timespec)
      → HasTable s
      → hdr.flag ≡ hopa_cp
      → hdr.cp_flag ≡ probe_flag
      → hdr.probe_path_id < path_nb
      → pf.dpdk.be_to_cpu_64 hdr.ts ≡ nanoseconds sent
      → let delays =
          set s.all_paths_delay_list hdr.probe_path_id
            (sub64 (add64 1000000000 (nanoseconds received)) (nanoseconds sent)) in
        handle_hdr pf s hdr received
        ≡ ok (record s {
          all_paths_delay_list = delays;
          best_path_id = get_min_delay_path_id delays path_nb;
        })
  unfolding handle_hdr hopa_cp_probe_pkt_progress
  handle_hdr-probe s hdr sent received e f k h t = ground arith

  handle_hdr-kept :
      (s : Cp I O) (hdr : HopaCpHdr) (ts : Timespec) {t : Cp I O}
      → HasTable s
      → handle_hdr pf s hdr ts ≡ ok t
      → HasTable t × (t.m_hopa_cp_in_out_ring ≡ s.m_hopa_cp_in_out_ring)
  unfolding handle_hdr hopa_cp_probe_pkt_progress hopa_cp_repath_pkt_progress
      hopa_cp_repath_ack_pkt_progress
  handle_hdr-kept s hdr ts e h = grind (arith, length-set)

  handle_hdr-ne-exited :
      (s : Cp I O) (hdr : HopaCpHdr) (ts : Timespec) → handle_hdr pf s hdr ts ≢ exited
  unfolding handle_hdr hopa_cp_probe_pkt_progress
  handle_hdr-ne-exited s hdr ts h = ground arith

  handle_hdr-HasTable :
      (s : Cp I O) (hdr : HopaCpHdr) (ts : Timespec)
      → HasTable s
      → NamesPath hdr
      → (t : Cp I O) × (handle_hdr pf s hdr ts ≡ ok t)
        × HasTable t
        × (t.m_hopa_cp_in_out_ring ≡ s.m_hopa_cp_in_out_ring)
  handle_hdr-HasTable s hdr ts e n = by_result (handle_hdr pf s hdr ts) refl
    where
      by_result :
          (r : Result (Cp I O))
          → handle_hdr pf s hdr ts ≡ r
          → (t : Cp I O) × (handle_hdr pf s hdr ts ≡ ok t)
            × HasTable t
            × (t.m_hopa_cp_in_out_ring ≡ s.m_hopa_cp_in_out_ring)
      by_result (ok t) h =
          (t, h, (handle_hdr-kept s hdr ts e h).0, (handle_hdr-kept s hdr ts e h).1)
      by_result exited h = absurd (handle_hdr-ne-exited s hdr ts h)
      by_result fault h = absurd (ground (arith, (handle_hdr-fault s hdr ts e).0 h))

  -- All headers of a list can be digested.
  abbrev pub AllNamePath : List HopaCpHdr → Type 0
  AllNamePath [] = Unit {0}
  AllNamePath (hdr ∷ hdrs) = NamesPath hdr × AllNamePath hdrs

  handle_hdrs-HasTable :
      (hdrs : List HopaCpHdr) (s : Cp I O) (clock : ℕ → Timespec) (i : ℕ)
      → HasTable s
      → AllNamePath hdrs
      → (t : Cp I O) × (handle_hdrs pf s hdrs clock i ≡ ok t)
        × HasTable t
        × (t.m_hopa_cp_in_out_ring ≡ s.m_hopa_cp_in_out_ring)
  unfolding handle_hdrs
  handle_hdrs-HasTable [] s clock i e n = (s, refl, e, refl)
  handle_hdrs-HasTable (hdr ∷ hdrs) s clock i e n =
      let (t, first, table, ring) = handle_hdr-HasTable s hdr (clock i) e n.0 in
      let (u, others, table', ring') = handle_hdrs-HasTable hdrs t clock (i + 1) table n.1 in
      (u, ground (arith, first, others), table', ring' ∙ ring)

  -- A round of hopa_cp_progress returns if the headers that wait in the ring can be digested: it
  -- takes the oldest off, 32 at most, frees exactly these, and the table keeps its size.
  pub hopa_cp_progress-returns :
      (s : Cp I O) (rings : InOutRing I O) (q : I) (clock : ℕ → Timespec)
      → IsRing pf.in_ops
      → HasTable s
      → s.m_hopa_cp_in_out_ring ≡ some rings
      → rings.hopa_cp_in_ring ≡ some q
      → AllNamePath (take 32 (pf.in_ops.contents q))
      → (t : Cp I O) × (q' : I) × (hopa_cp_progress pf s clock
          ≡ ok (t, take 32 (pf.in_ops.contents q)))
        × HasTable t
        × (t.m_hopa_cp_in_out_ring ≡ some (record rings { hopa_cp_in_ring = some q' }))
        × (pf.in_ops.contents q' ≡ drop 32 (pf.in_ops.contents q))
  unfolding hopa_cp_progress
  hopa_cp_progress-returns s rings q clock ring e r i n =
      let q' = (pf.in_ops.dequeue_burst q 32).1 in
      let taken = record s {
        m_hopa_cp_in_out_ring = some (record rings { hopa_cp_in_ring = some q' });
      } in
      let (t, runs, table, kept) =
        handle_hdrs-HasTable (pf.in_ops.dequeue_burst q 32).0 taken clock 0 e
          (subst AllNamePath (sym (ring.dequeue_lem q 32)) n) in
      (t, q', ground (arith, runs, ring.dequeue_lem q 32), table, kept, ring.contents-dequeue q 32)
