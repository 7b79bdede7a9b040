-- ===== src/Ovs/Meter/Account.antt =====
-- What a meter counts, and that its buckets stay within their bounds.
use repath.Base.{
  ℕ, zero, suc, ◌+◌, ◌-◌, ◌*◌, ◌%◌, ◌^◌, ◌≤◌, ◌<◌, ◌≡◌, refl, ap, ◌∙◌, Bool, true, false, some,
  List, [], ◌∷◌, get_elem?, set, length, to_u32, add64, arith, inl, inr, Option-cases, replicate,
  length-replicate, length-set,
}
use repath.Ovs.Meter.{
  Band, Meter, Exceeded, is_pktps, refilled, max_bucket_size, drain_bits, drain_bucket, raise, fire,
  run_bands, drop_exceeded, not_exceeded, meter_delta, meter_volume, run_found_meter,
}

-- A bucket is never fuller than its burst size allows.
pub IsBucketed : List Band → Type 0
IsBucketed [] = Unit
IsBucketed (b ∷ bands) = (b.bucket ≤ max_bucket_size b) × IsBucketed bands

-- The packets that the bands have counted.
pub fired : List Band → ℕ
fired [] = 0
fired (b ∷ bands) = b.packet_count + fired bands

-- Every band that is named is there.
Names : ℕ → List Exceeded → Type 0
Names n [] = Unit
Names n (e ∷ es) = ((m : ℕ) → e.band ≡ some m → m < n) × Names n es

raise-Names :
    (n m rate : ℕ) (marks : List Bool) (es : List Exceeded)
    → m < n
    → Names n es
    → Names n (raise m rate marks es)
unfolding raise Names
raise-Names n m rate [] es h k = k
raise-Names n m rate (b ∷ marks) [] h k = tt
raise-Names n m rate (true ∷ marks) (e ∷ es) h k =
    (λ j named. ground (arith, k.0 j), raise-Names n m rate marks es h k.1)
raise-Names n m rate (false ∷ marks) (e ∷ es) h k = (k.0, raise-Names n m rate marks es h k.1)

replicate-Names : (n k : ℕ) → Names n (replicate k not_exceeded)
unfolding Names
replicate-Names n zero = tt
replicate-Names n (suc k) = (λ m named. absurd (ground arith), replicate-Names n k)

-- A write to a band that is there replaces its count.
fired-set :
    (bands : List Band) (m : ℕ) (b c : Band)
    → get_elem? bands m ≡ some b
    → fired (set bands m c) + b.packet_count ≡ fired bands + c.packet_count
unfolding fired
fired-set [] m b c e = absurd (ground arith)
fired-set (d ∷ bands) zero b c e = ground arith
fired-set (d ∷ bands) (suc m) b c e = omega (arith, fired-set bands m b c e)

get_elem?-lt :
    (bands : List Band) (m : ℕ) → m < length bands → (b : Band) × (get_elem? bands m ≡ some b)
get_elem?-lt [] m h = absurd (omega arith)
get_elem?-lt (b ∷ bands) zero h = (b, refl)
get_elem?-lt (b ∷ bands) (suc m) h = get_elem?-lt bands m (omega arith)

set-IsBucketed :
    (bands : List Band) (m : ℕ) (c : Band)
    → c.bucket ≤ max_bucket_size c
    → IsBucketed bands
    → IsBucketed (set bands m c)
unfolding IsBucketed
set-IsBucketed [] m c h k = tt
set-IsBucketed (b ∷ bands) zero c h k = (h, k.1)
set-IsBucketed (b ∷ bands) (suc m) c h k = (k.0, set-IsBucketed bands m c h k.1)

get_elem?-IsBucketed :
    (bands : List Band) (m : ℕ) (b : Band)
    → get_elem? bands m ≡ some b
    → IsBucketed bands
    → b.bucket ≤ max_bucket_size b
unfolding IsBucketed
get_elem?-IsBucketed [] m b e k = absurd (ground arith)
get_elem?-IsBucketed (c ∷ bands) zero b e k = let same : c ≡ b = ground arith in rw (← same) k.0
get_elem?-IsBucketed (c ∷ bands) (suc m) b e k = get_elem?-IsBucketed bands m b e k.1

fire_lem :
    (bands : List Band) (m bytes : ℕ)
    → m < length bands
    → (fired (fire bands m bytes) % 2 ^ 64 ≡ (fired bands + 1) % 2 ^ 64)
      × (length (fire bands m bytes) ≡ length bands)
      × (IsBucketed bands → IsBucketed (fire bands m bytes))
unfolding fire
fire_lem bands m bytes h =
    let (b, e) = get_elem?-lt bands m h in
    let c : Band = record b {
      packet_count = add64 b.packet_count 1;
      byte_count = add64 b.byte_count bytes;
    } in
    let one : fire bands m bytes ≡ set bands m c = ground (arith, e) in
    rw one (
      omega (arith, fired-set bands m b c e),
      length-set bands m c,
      λ k. set-IsBucketed bands m c (get_elem?-IsBucketed bands m b e k) k,
    )

length-raise :
    (m rate : ℕ) (marks : List Bool) (es : List Exceeded)
    → length (raise m rate marks es) ≡ length es
unfolding raise
length-raise m rate [] es = refl
length-raise m rate (b ∷ marks) [] = refl
length-raise m rate (true ∷ marks) (e ∷ es) = ap suc (length-raise m rate marks es)
length-raise m rate (false ∷ marks) (e ∷ es) = ap suc (length-raise m rate marks es)

module _ {P : Type 0} (size : P → ℕ) where
  drain_bits-le : (ps : List P) (bucket : ℕ) → (drain_bits size bucket ps).0 ≤ bucket
  unfolding drain_bits
  drain_bits-le [] bucket = omega arith
  drain_bits-le (p ∷ ps) bucket =
      ground (arith, drain_bits-le ps bucket, drain_bits-le ps (bucket - to_u32 (size p * 8)))

  drain_bucket-le :
      (pktps : Bool) (volume : ℕ) (ps : List P) (bucket : ℕ)
      → (drain_bucket size pktps volume ps bucket).0 ≤ bucket
  unfolding drain_bucket
  drain_bucket-le pktps volume ps bucket = ground (arith, drain_bits-le ps bucket)

  -- The loop over the bands: as many bands, no count changed, and buckets within their bounds.
  run_bands_lem :
      (pktps : Bool) (delta_t volume : ℕ) (ps : List P) (m : ℕ) (bands : List Band)
      (es : List Exceeded)
      → (n : ℕ) → m + length bands ≤ n
      → Names n es
      → let r = run_bands size pktps delta_t volume ps m bands es in
        (length r.0 ≡ length bands)
        × (fired r.0 ≡ fired bands)
        × IsBucketed r.0
        × Names n r.1
        × (length r.1 ≡ length es)
  unfolding run_bands fired IsBucketed
  run_bands_lem pktps delta_t volume ps m [] es n h k = (refl, refl, tt, k, refl)
  run_bands_lem pktps delta_t volume ps m (b ∷ bands) es n h k =
      let marks = (drain_bucket size pktps volume ps (refilled delta_t b)).1 in
      let (count, same, bucketed, named, long) =
        run_bands_lem pktps delta_t volume ps (m + 1) bands (raise m b.rate marks es) n
          (omega arith) (raise-Names n m b.rate marks es (omega arith) k) in
      (
        ap suc count,
        omega (arith, same),
        (omega (arith, drain_bucket-le pktps volume ps (refilled delta_t b)), bucketed),
        named,
        long ∙ length-raise m b.rate marks es,
      )

  -- Every packet is accepted, or counted once at a band.
  drop_exceeded_lem :
      (bands : List Band) (ps : List P) (es : List Exceeded)
      → length ps ≡ length es
      → Names (length bands) es
      → IsBucketed bands
      → let r = drop_exceeded size bands ps es in
        ((fired r.0 + length r.1) % 2 ^ 64 ≡ (fired bands + length ps) % 2 ^ 64) × IsBucketed r.0
  unfolding drop_exceeded Names
  drop_exceeded_lem bands [] es l n k = (refl, k)
  drop_exceeded_lem bands (p ∷ ps) [] l n k = absurd (omega arith)
  drop_exceeded_lem bands (p ∷ ps) (e ∷ es) l n k = elim (Option-cases e.band) [
    | inl none_named ↦
        let (count, bucketed) = drop_exceeded_lem bands ps es (omega arith) n.1 k in
        rw none_named (omega (arith, count), bucketed)
    | inr (m, named) ↦
        let (one, long, kept) = fire_lem bands m (size p) (n.0 m named) in
        let (count, bucketed) =
          drop_exceeded_lem (fire bands m (size p)) ps es (omega arith) (rw long n.1) (kept k) in
        rw named (omega (arith, count, one), bucketed)
  ]

  -- Over any batch: every packet is accepted, or dropped and counted at one of the bands, modulo
  -- 2^64; the meter counts all of them; and no bucket holds more than its burst size allows,
  -- whatever it held before.
  pub run_found_meter-account :
      (meter : Meter) (packets : List P) (now : ℕ)
      → let (after, accepted) = run_found_meter size meter packets now in
        ((fired after.bands + length accepted) % 2 ^ 64
          ≡ (fired meter.bands + length packets) % 2 ^ 64)
        × (after.packet_count ≡ (meter.packet_count + length packets) % 2 ^ 64)
        × IsBucketed after.bands
        × (after.used ≡ now)
        × (after.id ≡ meter.id)
  unfolding run_found_meter
  run_found_meter-account meter packets now =
      let n = length meter.bands in
      let start = replicate (length packets) not_exceeded in
      let r =
        run_bands size (is_pktps meter.flags) (meter_delta size meter now)
          (meter_volume size meter packets) packets 0 meter.bands start in
      let (count, same, bucketed, named, long) =
        run_bands_lem (is_pktps meter.flags) (meter_delta size meter now)
          (meter_volume size meter packets) packets 0 meter.bands start n (omega arith)
          (replicate-Names n (length packets)) in
      let (accounted, kept) =
        drop_exceeded_lem r.0 packets r.1
          (omega (arith, long, length-replicate (length packets) not_exceeded)) (rw count named)
          bucketed in
      (omega (arith, accounted, same), refl, kept, refl, refl)
