-- ===== src/Hopa/Progress/Invariant.antt =====
-- The table of delays keeps its length, and the best path is always the first with the least delay.
use repath.Base.{
  ◌≡◌, List, ok, length, arith, refl, ◌∙◌, length-set, ◌⊎◌, inl, inr, Option, some, none,
}
use repath.Hopa.Packet.{path_nb, Pkt}
use repath.Hopa.Paths.{no_delays, store_delay, get_min_delay_path_id}
use repath.Hopa.Paths.Minimum.{IsFirstMin, get_min_delay_path_id-IsFirstMin}
use repath.Hopa.Progress.{
  Cp, Answers, Platform, enqueue_out, initial, hopa_cp_probe_pkt_progress,
  hopa_cp_repath_pkt_progress, hopa_cp_repath_ack_pkt_progress, hopa_dp_ts_pkt_progress, handle_pkt,
}

pub record IsValid {Q : Type 0} (s : Cp Q) : Type 0 where
  pub table : length s.all_paths_delay_list ≡ path_nb
  pub best : IsFirstMin s.all_paths_delay_list path_nb s.opt_path_id

-- What a handler that is not about delays leaves alone.
abbrev pub Keeps : {Q : Type 0} → Cp Q → Cp Q → Type 0
Keeps s t =
    (t.all_paths_delay_list ≡ s.all_paths_delay_list)
    × (t.opt_path_id ≡ s.opt_path_id)
    × (t.mbuf_pool ≡ s.mbuf_pool)

module _ {Q : Type 0} (pf : Platform Q) where
  enqueue_out-Keeps :
      (s : Cp Q) (mbufs : List Pkt) {t : Cp Q} → enqueue_out pf s mbufs ≡ ok t → Keeps s t
  unfolding enqueue_out
  enqueue_out-Keeps s mbufs e = ground arith

  repath-Keeps :
      (s : Cp Q) (mbuf : Pkt) (a : Answers) {t : Cp Q}
      → hopa_cp_repath_pkt_progress pf s mbuf a ≡ ok t
      → Keeps s t
  unfolding hopa_cp_repath_pkt_progress
  repath-Keeps s mbuf a e = ground arith

  dp_ts-Keeps :
      (s : Cp Q) (mbuf : Pkt) (a : Answers) {t : Cp Q}
      → hopa_dp_ts_pkt_progress pf s mbuf a ≡ ok t
      → Keeps s t
  unfolding hopa_dp_ts_pkt_progress
  dp_ts-Keeps s mbuf a e = ground arith

  repath_ack-Keeps :
      (s : Cp Q) (mbuf : Pkt) (a : Answers) {t : Cp Q}
      → hopa_cp_repath_ack_pkt_progress pf s mbuf a ≡ ok t
      → Keeps s t
  unfolding hopa_cp_repath_ack_pkt_progress
  repath_ack-Keeps s mbuf a e = ground arith

  IsValid-Keeps : {s t : Cp Q} → Keeps s t → IsValid s → IsValid t
  IsValid-Keeps k v = record { table = rw k.0 v.table; best = rw (k.0, k.1) v.best }

  -- What a probe that is handled has done.
  probe-stored :
      (s : Cp Q) (mbuf : Pkt) (a : Answers) {t : Cp Q}
      → hopa_cp_probe_pkt_progress pf s mbuf a ≡ ok t
      → (length t.all_paths_delay_list ≡ length s.all_paths_delay_list)
        × (t.opt_path_id ≡ get_min_delay_path_id t.all_paths_delay_list path_nb)
  unfolding hopa_cp_probe_pkt_progress store_delay
  probe-stored s mbuf a e = grind (arith, length-set)

  probe-IsValid :
      (s : Cp Q) (mbuf : Pkt) (a : Answers) {t : Cp Q}
      → hopa_cp_probe_pkt_progress pf s mbuf a ≡ ok t
      → IsValid s
      → IsValid t
  probe-IsValid s mbuf a {t} e v =
      let done = probe-stored s mbuf a e in
      record {
        table = done.0 ∙ v.table;
        best =
            rw done.1
              (get_min_delay_path_id-IsFirstMin t.all_paths_delay_list path_nb (omega arith));
      }

  handle_pkt-outcome :
      (s : Cp Q) (mbuf : Pkt) (a : Answers) {t : Cp Q}
      → handle_pkt pf s mbuf a ≡ ok t
      → Keeps s t ⊎ (hopa_cp_probe_pkt_progress pf s mbuf a ≡ ok t)
  unfolding handle_pkt
  handle_pkt-outcome s mbuf a {t} e = ground (
    arith,
    repath-Keeps s mbuf a {t = t},
    repath_ack-Keeps s mbuf a {t = t},
    dp_ts-Keeps s mbuf a {t = t},
  )

  -- Whatever packet arrives at a valid state, a handler that returns has kept the table's length,
  -- and the best path is the first with the least delay in it.
  pub handle_pkt-IsValid :
      (s : Cp Q) (mbuf : Pkt) (a : Answers) {t : Cp Q}
      → handle_pkt pf s mbuf a ≡ ok t
      → IsValid s
      → IsValid t
  handle_pkt-IsValid s mbuf a {t} e v = elim (handle_pkt-outcome s mbuf a e) [
    | inl k ↦ IsValid-Keeps k v
    | inr stored ↦ probe-IsValid s mbuf a stored v
  ]

pub initial-IsValid : {Q : Type 0} → IsValid (initial {Q = Q})
unfolding get_min_delay_path_id
initial-IsValid = record {
  table = refl;
  best = get_min_delay_path_id-IsFirstMin no_delays path_nb (omega arith);
}

-- The incoming ring of a state, if there is one.
abbrev pub in_ring : {Q : Type 0} → Cp Q → Option Q
in_ring s = elim s.hopa_in_out_ring_ins [ none ↦ none | some r ↦ r.hopa_in_ring ]

module _ {Q : Type 0} (pf : Platform Q) where
  enqueue_out-in_ring :
      (s : Cp Q) (mbufs : List Pkt) {t : Cp Q}
      → enqueue_out pf s mbufs ≡ ok t
      → in_ring t ≡ in_ring s
  unfolding enqueue_out
  enqueue_out-in_ring s mbufs e = ground arith

  -- No handler touches the incoming ring.
  pub handle_pkt-in_ring :
      (s : Cp Q) (p : Pkt) (a : Answers) {t : Cp Q}
      → handle_pkt pf s p a ≡ ok t
      → in_ring t ≡ in_ring s
  unfolding handle_pkt hopa_cp_probe_pkt_progress hopa_cp_repath_pkt_progress
      hopa_cp_repath_ack_pkt_progress hopa_dp_ts_pkt_progress
  handle_pkt-in_ring s p a e = ground arith
