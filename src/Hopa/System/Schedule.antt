-- ===== src/Hopa/System/Schedule.antt =====
-- The rounds of the two cores one by one, and what holds of a host between them.
use repath.Base.{
  ℕ, zero, suc, ◌+◌, ◌*◌, ◌≤◌, ◌≡◌, refl, sym, Bool, some, List, [], ◌∷◌, ◌++◌, take, drop, ok,
  arith,
}
use mathlib.Core.Path.{subst}
use mathlib.Core.List.{flatten}
use repath.Dpdk.{IsDocumented}
use repath.Dpdk.Ring.{IsRing}
use repath.Hopa.Packet.{burst_size, frame_bytes, Pkt}
use repath.Hopa.Progress.{Cp, Answers, Platform}
use repath.Hopa.Progress.Invariant.{IsValid, in_ring}
use repath.Hopa.Progress.Returns.{IsReady, IsSupplied}
use repath.Hopa.Lcore.Returns.{AllNamePath, lcore_stats_round-Returns}
use repath.Hopa.Main.Forward.{Nic, IsNic, main_round_lem}
use repath.Hopa.System.{Node, Turn, main_turn, stats_turn, take_turn}

module _ {Q : Type 0} (pf : Platform Q) where
  AllNamePath-append :
      (ps qs : List Pkt) → AllNamePath pf ps → AllNamePath pf qs → AllNamePath pf (ps ++ qs)
  AllNamePath-append [] qs h k = k
  AllNamePath-append (p ∷ ps) qs h k = (h.0, AllNamePath-append ps qs h.1 k)

  AllNamePath-take : (n : ℕ) (ps : List Pkt) → AllNamePath pf ps → AllNamePath pf (take n ps)
  AllNamePath-take zero ps h = tt
  AllNamePath-take (suc n) [] h = tt
  AllNamePath-take (suc n) (p ∷ ps) h = (h.0, AllNamePath-take n ps h.1)

  AllNamePath-drop : (n : ℕ) (ps : List Pkt) → AllNamePath pf ps → AllNamePath pf (drop n ps)
  AllNamePath-drop zero ps h = h
  AllNamePath-drop (suc n) [] h = tt
  AllNamePath-drop (suc n) (p ∷ ps) h = AllNamePath-drop n ps h.1

  -- A host at work, with what waits in its incoming ring: no probe of no path.
  pub record IsWorking (s : Node Q) : Type 0 where
    pub ring : Q
    pub ready : IsReady s.stats.cp
    pub valid : IsValid s.stats.cp
    pub has_ring : in_ring s.stats.cp ≡ some ring
    pub named : AllNamePath pf (pf.ring.contents ring)

  -- What the world provides: packets that name paths, buffers and the time.
  abbrev pub Provided : List Turn → Type 0
  Provided [] = Unit
  Provided (main_turn n received ∷ turns) = AllNamePath pf received × Provided turns
  Provided (stats_turn cur_tsc fires answers ∷ turns) =
      ((k : ℕ) → IsSupplied (answers k)) × Provided turns

-- How many rounds of a schedule are those of lcore_stats.
abbrev pub stats_turns : List Turn → ℕ
stats_turns [] = 0
stats_turns (main_turn n received ∷ turns) = stats_turns turns
stats_turns (stats_turn cur_tsc fires answers ∷ turns) = 1 + stats_turns turns

-- What the incoming ring has taken in a schedule: of each burst the packets up to some point.
abbrev pub Arrived : List Turn → List Pkt → Type 0
Arrived [] arrived = arrived ≡ []
Arrived (main_turn n received ∷ turns) arrived =
    (k : ℕ) × (later : List Pkt) × (arrived ≡ take k received ++ later) × Arrived turns later
Arrived (stats_turn cur_tsc fires answers ∷ turns) arrived = Arrived turns arrived

module _ {Q : Type 0} (pf : Platform Q) (doc : IsDocumented pf.dpdk)
    (room : frame_bytes ≤ pf.dpdk.data_room) (law : IsRing pf.ring) where
  module _ (nic : Nic) (good : IsNic nic) (tenth : ℕ) where
    abbrev pub fuel : ℕ
    fuel = 33 * good.patience

    -- With the rings replaced the host is still set up and valid.
    refilled :
        (s : Cp Q) (q out : Q) (v : IsReady s)
        → IsValid s
        → let t = record s {
          hopa_in_out_ring_ins = some (record { hopa_in_ring = some q; hopa_out_ring = some out });
        } in
          IsReady t × IsValid t
    refilled s q out v valid = (
      record {
        rings = record { hopa_in_ring = some q; hopa_out_ring = some out };
        out = out;
        info = v.info;
        table = v.table;
        has_pool = v.has_pool;
        has_rings = refl;
        has_out = refl;
        has_info = v.has_info;
        has_step = v.has_step;
      },
      record { table = valid.table; best = valid.best },
    )

    both_rings :
        (s : Cp Q) (q : Q) (v : IsReady s)
        → in_ring s ≡ some q
        → s.hopa_in_out_ring_ins
          ≡ some (record { hopa_in_ring = some q; hopa_out_ring = some v.out })
    both_rings s q v e = ground (arith, v.has_rings, v.has_out, e)

    pub main_turn-IsWorking :
        (s : Node Q) (w : IsWorking pf s) (n : ℕ) (received : List Pkt)
        → AllNamePath pf received
        → (t : Node Q) × (w' : IsWorking pf t) × (k : ℕ) × (take_turn pf nic fuel tenth s
              (main_turn n received)
            ≡ ok t)
          × (t.stats.freed ≡ s.stats.freed)
          × (pf.ring.contents w'.ring ≡ pf.ring.contents w.ring ++ take k received)
    unfolding take_turn
    main_turn-IsWorking s w n received named =
        let (cp, q, out, k, bursts, runs, shape, filled, left, whole) =
          main_round_lem pf nic n received s.stats.cp w.ring w.ready.out law good
            (both_rings s.stats.cp w.ring w.ready w.has_ring) in
        let (ready, valid) = refilled s.stats.cp q out w.ready w.valid in
        (
          record s { stats = record s.stats { cp = cp }; sent = s.sent ++ flatten bursts },
          record {
            ring = q;
            ready = subst IsReady (sym shape) ready;
            valid = subst IsValid (sym shape) valid;
            has_ring = subst (λ c. in_ring c ≡ some q) (sym shape) refl;
            named =
                subst (AllNamePath pf) (sym filled)
                  (AllNamePath-append pf _ _ w.named (AllNamePath-take pf k received named));
          },
          k,
          rw runs refl,
          refl,
          filled,
        )

    pub stats_turn-IsWorking :
        (s : Node Q) (w : IsWorking pf s) (cur_tsc : ℕ) (fires : Bool) (answers : ℕ → Answers)
        → ((k : ℕ) → IsSupplied (answers k))
        → (t : Node Q) × (w' : IsWorking pf t) × (take_turn pf nic fuel tenth s
              (stats_turn cur_tsc fires answers)
            ≡ ok t)
          × (t.stats.freed ≡ s.stats.freed ++ take burst_size (pf.ring.contents w.ring))
          × (pf.ring.contents w'.ring ≡ drop burst_size (pf.ring.contents w.ring))
    unfolding take_turn
    stats_turn-IsWorking s w cur_tsc fires answers supplied =
        let (st, q, runs, ready, valid, freed, has, rest) =
          lcore_stats_round-Returns pf doc room tenth s.stats cur_tsc fires answers w.ring law
            w.ready w.valid supplied w.has_ring (AllNamePath-take pf burst_size _ w.named) in
        (
          record s { stats = st },
          record {
            ring = q;
            ready = ready;
            valid = valid;
            has_ring = has;
            named = subst (AllNamePath pf) (sym rest) (AllNamePath-drop pf burst_size _ w.named);
          },
          rw runs refl,
          freed,
          rest,
        )
