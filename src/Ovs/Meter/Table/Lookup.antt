-- ===== src/Ovs/Meter/Table/Lookup.antt =====
-- Where a meter is found after the table has changed.
use repath.Base.{
  ℕ, ◌<◌, ◌≡◌, ◌≢◌, refl, sym, ◌∙◌, none, some, List, [], ◌∷◌, ok, Result-cases, ◌==◌, arith, take,
  inl, inr, Bool-cases, Option-cases,
}
use repath.Ovs.Meter.{Meter, max_meters, run_found_meter}
use repath.Ovs.Meter.Account.{run_found_meter-account}
use repath.Ovs.Meter.Table.{
  MeterConfig, MeterStats, failed, stats, enoent, band_stats, dp_meter_lookup, dp_meter_detach_free,
  dp_meter_attach, update_meter, dp_netdev_run_meter, set_up_bands, dpif_netdev_meter_set,
  dpif_netdev_meter_get, dpif_netdev_meter_del,
}

-- No meter of a table has the id.
unfoldable pub Lacks : List Meter → ℕ → Type 0
Lacks [] i = Unit
Lacks (m ∷ meters) i = (m.id ≢ i) × Lacks meters i

-- No two meters of a table have the same id.
unfoldable pub AreUnique : List Meter → Type 0
AreUnique [] = Unit
AreUnique (m ∷ meters) = Lacks meters m.id × AreUnique meters

lookup-Lacks : (meters : List Meter) (i : ℕ) → Lacks meters i → dp_meter_lookup meters i ≡ none
unfolding dp_meter_lookup Lacks
lookup-Lacks [] i h = refl
lookup-Lacks (m ∷ meters) i h = ground (arith, h.0, lookup-Lacks meters i h.1)

detach-Lacks :
    (meters : List Meter) (i j : ℕ) → Lacks meters i → Lacks (dp_meter_detach_free meters j) i
unfolding dp_meter_detach_free Lacks
detach-Lacks [] i j h = tt
detach-Lacks (m ∷ meters) i j h = elim (Bool-cases (m.id == j)) [
  | inl e ↦ rw e h.1
  | inr e ↦ rw e (h.0, detach-Lacks meters i j h.1)
]

detach-Lacks_self :
    (meters : List Meter) (i : ℕ) → AreUnique meters → Lacks (dp_meter_detach_free meters i) i
unfolding dp_meter_detach_free Lacks AreUnique
detach-Lacks_self [] i u = tt
detach-Lacks_self (m ∷ meters) i u = elim (Bool-cases (m.id == i)) [
  | inl e ↦ let same : m.id ≡ i = ground arith in rw e (rw (← same) u.0)
  | inr e ↦ rw e (ground arith, detach-Lacks_self meters i u.1)
]

detach-AreUnique :
    (meters : List Meter) (i : ℕ) → AreUnique meters → AreUnique (dp_meter_detach_free meters i)
unfolding dp_meter_detach_free AreUnique
detach-AreUnique [] i u = tt
detach-AreUnique (m ∷ meters) i u = elim (Bool-cases (m.id == i)) [
  | inl e ↦ rw e u.1
  | inr e ↦ rw e (detach-Lacks meters m.id i u.0, detach-AreUnique meters i u.1)
]

lookup-detach :
    (meters : List Meter) (i j : ℕ)
    → i ≢ j
    → dp_meter_lookup (dp_meter_detach_free meters i) j ≡ dp_meter_lookup meters j
unfolding dp_meter_lookup dp_meter_detach_free
lookup-detach [] i j h = refl
lookup-detach (m ∷ meters) i j h = ground (arith, lookup-detach meters i j h)

-- In a table of unique ids, a meter that was set is found with the given flags and the time as its
-- last use, and no packets; every other id finds what it found before, and ids stay unique.
pub dpif_netdev_meter_set_lem :
    (meters : List Meter) (mid : ℕ) (config : MeterConfig) (now : ℕ) {t : List Meter}
    → dpif_netdev_meter_set meters mid config now ≡ ok (none, t)
    → AreUnique meters
    → ((m : Meter) × (dp_meter_lookup t mid ≡ some m)
        × (m.flags ≡ config.flags)
        × (m.used ≡ now)
        × (m.packet_count ≡ 0))
      × ((j : ℕ) → mid ≢ j → dp_meter_lookup t j ≡ dp_meter_lookup meters j)
      × AreUnique t
unfolding dpif_netdev_meter_set dp_meter_attach dp_meter_lookup AreUnique
dpif_netdev_meter_set_lem meters mid config now {t} e u =
    elim (Result-cases (set_up_bands 0 config.bands)) [
      | inl f ↦ absurd (ground (arith, e))
      | inr (inl f) ↦ absurd (ground (arith, e))
      | inr (inr (r, f)) ↦
          let meter : Meter = record {
            id = mid;
            flags = config.flags;
            max_delta_t = r.1;
            used = now;
            packet_count = 0;
            byte_count = 0;
            bands = r.0;
          } in
          let shape : t ≡ meter ∷ dp_meter_detach_free meters mid = ground (arith, e) in
          rw shape (
            (meter, ground arith, refl, refl, refl),
            λ j ne. ground (arith, lookup-detach meters mid j ne),
            (detach-Lacks_self meters mid u, detach-AreUnique meters mid u),
          )
    ]

get-absent :
    (meters : List Meter) (i n : ℕ)
    → dp_meter_lookup meters i ≡ none
    → i < max_meters
    → dpif_netdev_meter_get meters i n ≡ failed enoent
unfolding dpif_netdev_meter_get
get-absent meters i n e h = ground arith

get-present :
    (meters : List Meter) (i n : ℕ) (m : Meter)
    → dp_meter_lookup meters i ≡ some m
    → i < max_meters
    → (s : MeterStats) × (dpif_netdev_meter_get meters i n ≡ stats s)
unfolding dpif_netdev_meter_get
get-present meters i n m e h = (
  record {
    packet_in_count = m.packet_count;
    byte_in_count = m.byte_count;
    bands = take n (band_stats m.bands);
  },
  ground arith,
)

-- In a table of unique ids, deleting a meter whose id is in range answers what reading it answers;
-- afterwards it is found no more, every other id finds what it found before, and ids stay unique.
pub dpif_netdev_meter_del_lem :
    (meters : List Meter) (meter_id n_bands : ℕ)
    → AreUnique meters
    → meter_id < max_meters
    → let (answer, t) = dpif_netdev_meter_del meters meter_id n_bands in
      (answer ≡ dpif_netdev_meter_get meters meter_id n_bands)
      × (dpif_netdev_meter_get t meter_id n_bands ≡ failed enoent)
      × ((j : ℕ) → meter_id ≢ j → dp_meter_lookup t j ≡ dp_meter_lookup meters j)
      × AreUnique t
unfolding dpif_netdev_meter_del
dpif_netdev_meter_del_lem meters meter_id n_bands u h =
    elim (Option-cases (dp_meter_lookup meters meter_id)) [
      | inl e ↦
          let got = get-absent meters meter_id n_bands e h in
          let shape : dpif_netdev_meter_del meters meter_id n_bands ≡ (failed enoent, meters) =
            ground (arith, got) in
          rw shape (sym got, got, λ j ne. refl, u)
      | inr (m, e) ↦
          let (s, got) = get-present meters meter_id n_bands m e h in
          let shape : dpif_netdev_meter_del meters meter_id n_bands
              ≡ (stats s, dp_meter_detach_free meters meter_id) =
            ground (arith, got) in
          rw shape (
            sym got,
            get-absent (dp_meter_detach_free meters meter_id) meter_id n_bands
                (lookup-Lacks _ meter_id (detach-Lacks_self meters meter_id u)) h,
            λ j ne. lookup-detach meters meter_id j ne,
            detach-AreUnique meters meter_id u,
          )
    ]

lookup-id : (meters : List Meter) (i : ℕ) (m : Meter) → dp_meter_lookup meters i ≡ some m → m.id ≡ i
unfolding dp_meter_lookup
lookup-id [] i m e = absurd (ground arith)
lookup-id (k ∷ meters) i m e = ground (arith, lookup-id meters i m)

lookup-update :
    (meters : List Meter) (m old : Meter) (j : ℕ)
    → dp_meter_lookup meters m.id ≡ some old
    → (dp_meter_lookup (update_meter meters m) m.id ≡ some m)
      × (m.id ≢ j → dp_meter_lookup (update_meter meters m) j ≡ dp_meter_lookup meters j)
unfolding dp_meter_lookup update_meter
lookup-update [] m old j e = absurd (ground arith)
lookup-update (k ∷ meters) m old j e = (
  ground (arith, lookup-update meters m old j),
  λ ne. ground (arith, lookup-update meters m old j),
)

-- Running a meter that is found under an id in range leaves it as its buckets say, accepts the
-- packets that these let through, and changes no other meter.
pub dp_netdev_run_meter_lem :
    {P : Type 0} (size : P → ℕ) (meters : List Meter) (packets : List P) (meter_id now : ℕ)
    (m : Meter)
    → meter_id < max_meters
    → dp_meter_lookup meters meter_id ≡ some m
    → let (t, accepted) = dp_netdev_run_meter size meters packets meter_id now in
      (dp_meter_lookup t meter_id ≡ some (run_found_meter size m packets now).0)
      × (accepted ≡ (run_found_meter size m packets now).1)
      × ((j : ℕ) → meter_id ≢ j → dp_meter_lookup t j ≡ dp_meter_lookup meters j)
unfolding dp_netdev_run_meter
dp_netdev_run_meter_lem size meters packets meter_id now m h e =
    let r = run_found_meter size m packets now in
    let shape : dp_netdev_run_meter size meters packets meter_id now
        ≡ (update_meter meters r.0, r.1) =
      ground arith in
    let id : r.0.id ≡ meter_id =
      (run_found_meter-account size m packets now).4 ∙ lookup-id meters meter_id m e in
    let found : dp_meter_lookup meters r.0.id ≡ some m = rw id e in
    let updated = lookup-update meters r.0 m in
    rw shape (
      rw (← id) (updated 0 found).0,
      refl,
      λ j ne. (updated j found).1 (λ same. ne (sym id ∙ same)),
    )
