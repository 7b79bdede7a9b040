-- ===== src/Ovs/Meter/Table/Config.antt =====
-- When a meter can be set, and with what it starts.
use repath.Base.{
  ℕ, zero, suc, ◌+◌, ◌*◌, ◌/◌, ◌^◌, ◌≤◌, ◌<◌, ◌≡◌, ◌↔◌, refl, true, none, some, List, [], ◌∷◌, ok,
  >>=-eq-ok, Result-cases, length, ltb, get_elem?, if◌then◌else◌, arith, inl, inr, to_u32, defined,
}
use repath.Ovs.Meter.{Band, Meter, max_meters, max_bands, refilled, max_bucket_size}
use repath.Ovs.Meter.Table.{
  BandConfig, MeterConfig, dp_meter_detach_free, dp_meter_attach, all_drop, new_band, set_up_bands,
  dpif_netdev_meter_set,
}

-- What is asked of the bands: all are of the type DROP and have a rate.
pub AllUsable : List BandConfig → Type 0
AllUsable [] = Unit
AllUsable (c ∷ bands) = (c.is_drop ≡ true) × (0 < c.rate) × AllUsable bands

set_up_bands-AllUsable :
    (bands : List BandConfig) (max_delta_t : ℕ)
    → AllUsable bands
    → (r : List Band × ℕ) × (set_up_bands max_delta_t bands ≡ ok r) × (all_drop bands ≡ true)
unfolding set_up_bands AllUsable all_drop new_band
set_up_bands-AllUsable [] max_delta_t u = (([], max_delta_t), refl, refl)
set_up_bands-AllUsable (c ∷ bands) max_delta_t u =
    let k = to_u32 ((new_band c).bucket / c.rate) in
    let next = if ltb max_delta_t k then k else max_delta_t in
    let (r, runs, drops) = set_up_bands-AllUsable bands next u.2 in
    ((new_band c ∷ r.0, r.1), ground (arith, u.1, runs), ground (arith, u.0, drops))

AllUsable-set_up_bands :
    (bands : List BandConfig) (max_delta_t : ℕ) {r : List Band × ℕ}
    → all_drop bands ≡ true
    → set_up_bands max_delta_t bands ≡ ok r
    → AllUsable bands
unfolding set_up_bands AllUsable all_drop new_band
AllUsable-set_up_bands [] max_delta_t d e = tt
AllUsable-set_up_bands (c ∷ bands) max_delta_t d e =
    let k = to_u32 ((new_band c).bucket / c.rate) in
    let next = if ltb max_delta_t k then k else max_delta_t in
    let (u, e₁, rest₁) = >>=-eq-ok (defined (ltb 0 c.rate)) _ e in
    let (r, e₂, rest₂) = >>=-eq-ok (set_up_bands next bands) _ rest₁ in
    (ground arith, ground arith, AllUsable-set_up_bands bands next (ground arith) e₂)

-- A meter is set exactly if its id is below 2^18, its flags are among the four that are supported,
-- it has 8 bands at most, and every band is of the type DROP with a rate that is not 0.
pub dpif_netdev_meter_set_iff :
    (meters : List Meter) (mid : ℕ) (config : MeterConfig) (now : ℕ)
    → ((t : List Meter) × (dpif_netdev_meter_set meters mid config now ≡ ok (none, t))) ↔ (
        (mid < max_meters)
        × (config.flags < 16)
        × (length config.bands ≤ max_bands)
        × AllUsable config.bands)
unfolding dpif_netdev_meter_set
dpif_netdev_meter_set_iff meters mid config now = (
  λ h. elim (Result-cases (set_up_bands 0 config.bands)) [
    | inl e ↦ absurd (ground (arith, h.1))
    | inr (inl e) ↦ absurd (ground (arith, h.1))
    | inr (inr (r, e)) ↦ (
      ground (arith, h.1),
      ground (arith, h.1),
      ground (arith, h.1),
      AllUsable-set_up_bands config.bands 0 (ground (arith, h.1)) e,
    )
  ],
  λ h.
      let (r, runs, drops) = set_up_bands-AllUsable config.bands 0 h.3 in
      (
        dp_meter_attach (dp_meter_detach_free meters mid) (record {
          id = mid;
          flags = config.flags;
          max_delta_t = r.1;
          used = now;
          packet_count = 0;
          byte_count = 0;
          bands = r.0;
        }),
        ground (arith, h.0, h.1, h.2, runs, drops),
      ),
)

-- The greatest time so far once a band is looked at.
abbrev longer : ℕ → BandConfig → ℕ
longer max_delta_t c =
    let k = to_u32 ((new_band c).bucket / (new_band c).rate) in
    if ltb max_delta_t k then k else max_delta_t

-- A step of the loop that sets up the bands.
set_up_bands-cons :
    (c : BandConfig) (bands : List BandConfig) (max_delta_t : ℕ) {r : List Band × ℕ}
    → set_up_bands max_delta_t (c ∷ bands) ≡ ok r
    → (s : List Band × ℕ) × (0 < (new_band c).rate)
      × (set_up_bands (longer max_delta_t c) bands ≡ ok s)
      × (r ≡ (new_band c ∷ s.0, s.1))
unfolding set_up_bands
set_up_bands-cons c bands max_delta_t e =
    let (u, e₁, rest₁) = >>=-eq-ok (defined (ltb 0 (new_band c).rate)) _ e in
    let (s, e₂, rest₂) = >>=-eq-ok (set_up_bands (longer max_delta_t c) bands) _ rest₁ in
    (s, ground arith, e₂, ground arith)

set_up_bands-le :
    (bands : List BandConfig) (max_delta_t : ℕ) {r : List Band × ℕ}
    → set_up_bands max_delta_t bands ≡ ok r
    → max_delta_t ≤ r.1
unfolding set_up_bands
set_up_bands-le [] max_delta_t e = ground arith
set_up_bands-le (c ∷ bands) max_delta_t e =
    let (s, p, runs, shape) = set_up_bands-cons c bands max_delta_t e in
    ground (arith, set_up_bands-le bands (longer max_delta_t c) runs, shape)

set_up_bands-lt :
    (bands : List BandConfig) (max_delta_t : ℕ) {r : List Band × ℕ}
    → set_up_bands max_delta_t bands ≡ ok r
    → max_delta_t < 2 ^ 32
    → r.1 < 2 ^ 32
unfolding set_up_bands
set_up_bands-lt [] max_delta_t e h = ground arith
set_up_bands-lt (c ∷ bands) max_delta_t e h =
    let (s, p, runs, shape) = set_up_bands-cons c bands max_delta_t e in
    ground (arith, set_up_bands-lt bands (longer max_delta_t c) runs, shape)

-- A band that was set up has a rate, a full bucket and no counts, and its time is among those that
-- were looked at.
record IsFresh (max_delta_t : ℕ) (b : Band) : Type 0 where
  pub has_rate : 0 < b.rate
  pub full : b.bucket ≡ max_bucket_size b
  pub no_packets : b.packet_count ≡ 0
  pub in_time : to_u32 (b.bucket / b.rate) ≤ max_delta_t

set_up_bands-IsFresh :
    (bands : List BandConfig) (max_delta_t k : ℕ) {r : List Band × ℕ} {b : Band}
    → set_up_bands max_delta_t bands ≡ ok r
    → get_elem? r.0 k ≡ some b
    → IsFresh r.1 b
unfolding set_up_bands new_band
set_up_bands-IsFresh [] max_delta_t k e g = absurd (ground arith)
set_up_bands-IsFresh (c ∷ bands) max_delta_t zero {r} {b} e g =
    let (s, p, runs, shape) = set_up_bands-cons c bands max_delta_t e in
    let same : new_band c ≡ b = ground (arith, shape) in
    let kept = set_up_bands-le bands (longer max_delta_t c) runs in
    rw (← same) (
      rw shape
        (record { has_rate = p; full = refl; no_packets = refl; in_time = ground (arith, kept) }))
set_up_bands-IsFresh (c ∷ bands) max_delta_t (suc k) {r} {b} e g =
    let (s, p, runs, shape) = set_up_bands-cons c bands max_delta_t e in
    rw shape (set_up_bands-IsFresh bands (longer max_delta_t c) k runs (ground (arith, shape)))

product_lt : (t rate : ℕ) → t < 2 ^ 32 → rate < 2 ^ 32 → t * rate < 2 ^ 64
product_lt t rate h k = grind arith

quotient_lem : (x rate t : ℕ) → 0 < rate → x / rate ≤ t → x < t * rate + rate
quotient_lem x rate t p h = grind arith

-- Each band of a meter that was just set has a full bucket, if it has a rate of 32 bits and a
-- burst size so small that the time in which the rate fills it fits in 32 bits; and the greatest
-- time that the meter counts then fills the empty bucket up to a remainder that is less than the
-- rate.
pub meter_set-fills :
    (bands : List BandConfig) (k : ℕ) {r : List Band × ℕ} {b : Band}
    → set_up_bands 0 bands ≡ ok r
    → get_elem? r.0 k ≡ some b
    → b.rate < 2 ^ 32
    → b.bucket / b.rate < 2 ^ 32
    → (b.bucket ≡ max_bucket_size b)
      × (max_bucket_size b < refilled r.1 (record b { bucket = 0 }) + b.rate)
meter_set-fills bands k {r} {b} e g small fits =
    let fresh = set_up_bands-IsFresh bands 0 k e g in
    (
      fresh.full,
      omega (
        arith,
        fresh.full,
        product_lt r.1 b.rate (set_up_bands-lt bands 0 e (omega arith)) small,
        quotient_lem b.bucket b.rate r.1 fresh.has_rate (omega (arith, fresh.in_time)),
      ),
    )
