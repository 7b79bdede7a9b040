-- ===== src/Ovs/Meter/Limit.antt =====
-- A meter lets no more through than its buckets hold.
use repath.Base.{
  ℕ, ◌+◌, ◌-◌, ◌*◌, ◌/◌, ◌%◌, ◌^◌, ◌≤◌, ◌<◌, ◌≡◌, refl, ap, Bool, true, false, some, List, [], ◌∷◌,
  get_elem?, length, leb, if◌then◌else◌, to_u32, arith, min, inl, inr, Bool-cases, leb→le,
  replicate,
}
use repath.Ovs.Meter.{
  Band, Meter, is_pktps, refilled, packets_beyond, drain_bits, drain_bucket, run_bands, bytes_from,
  not_exceeded, meter_delta, meter_volume, run_found_meter,
}
use repath.Ovs.Meter.Marks.{
  weight, unmarked, marks_of, run_bands-Covers, accepted-le-unmarked, replicate-Plain,
}

module _ {P : Type 0} (size : P → ℕ) where
  -- What a packet takes from a bucket: 1000 thousandths of a packet, or its bits.
  unfoldable pub cost : Bool → P → ℕ
  cost true p = 1000
  cost false p = size p * 8

  bytes_from-eq :
      (ps : List P) (bytes : ℕ)
      → (bytes + weight size ps) < 2 ^ 32
      → bytes_from size bytes ps ≡ bytes + weight size ps
  unfolding bytes_from
  bytes_from-eq [] bytes h = omega arith
  bytes_from-eq (p ∷ ps) bytes h =
      let small : to_u32 (bytes + size p) ≡ bytes + size p = omega arith in
      rw small (omega (arith, bytes_from-eq ps (bytes + size p) (omega arith)))

  weight-bits : (ps : List P) → weight (cost false) ps ≡ weight size ps * 8
  unfolding cost
  weight-bits [] = refl
  weight-bits (p ∷ ps) = omega (arith, weight-bits ps)

  weight-packets : (ps : List P) → weight (cost true) ps ≡ length ps * 1000
  unfolding cost
  weight-packets [] = refl
  weight-packets (p ∷ ps) = omega (arith, weight-packets ps)

  -- While the costs fit in 32 bits, the volume is their sum.
  volume-eq :
      (meter : Meter) (ps : List P)
      → weight (cost (is_pktps meter.flags)) ps < 2 ^ 32
      → meter_volume size meter ps ≡ weight (cost (is_pktps meter.flags)) ps
  unfolding meter_volume
  volume-eq meter ps h = elim (Bool-cases (is_pktps meter.flags)) [
    | inl e ↦
        let small : weight (cost true) ps < 2 ^ 32 = rw (← e) h in
        rw e (omega (arith, weight-packets ps))
    | inr e ↦
        let small : weight (cost false) ps < 2 ^ 32 = rw (← e) h in
        rw e (omega (arith, weight-bits ps, bytes_from-eq ps 0 (omega (arith, weight-bits ps))))
  ]

  -- Packets that are taken one by one leave the bucket with what the others did not take.
  drain_bits-unmarked :
      (ps : List P) (bucket : ℕ)
      → weight (cost false) ps < 2 ^ 32
      → (drain_bits size bucket ps).0
          + weight (cost false) (unmarked ps (drain_bits size bucket ps).1)
        ≡ bucket
  unfolding drain_bits cost
  drain_bits-unmarked [] bucket h = omega arith
  drain_bits-unmarked (p ∷ ps) bucket h =
      let small : to_u32 (size p * 8) ≡ size p * 8 = omega arith in
      ground (
        arith,
        small,
        drain_bits-unmarked ps bucket (omega arith),
        drain_bits-unmarked ps (bucket - size p * 8) (omega arith),
      )

  -- The first `k` packets are unmarked.
  packets_beyond-unmarked :
      (ps : List P) (k i : ℕ)
      → length (unmarked ps (packets_beyond k i (length ps))) ≡ min (k - i) (length ps)
  unfolding packets_beyond
  packets_beyond-unmarked [] k i = omega arith
  packets_beyond-unmarked (p ∷ ps) k i = ground (arith, packets_beyond-unmarked ps k (i + 1))

  unmarked-replicate : (ps : List P) → unmarked ps (replicate (length ps) false) ≡ ps
  unmarked-replicate [] = refl
  unmarked-replicate (p ∷ ps) = ap (◌∷◌ p) (unmarked-replicate ps)

  -- The bucket afterwards and what the unmarked packets cost are the bucket before.
  drain_bucket-unmarked :
      (pktps : Bool) (ps : List P) (bucket : ℕ)
      → weight (cost pktps) ps < 2 ^ 32
      → let drained = drain_bucket size pktps (weight (cost pktps) ps) ps bucket in
        drained.0 + weight (cost pktps) (unmarked ps drained.1) ≡ bucket
  unfolding drain_bucket
  drain_bucket-unmarked pktps ps bucket h =
      elim (Bool-cases (leb (weight (cost pktps) ps) bucket)) [
        | inl e ↦
            rw e
              (rw (unmarked-replicate ps) (omega (arith, leb→le (weight (cost pktps) ps) bucket e)))
        | inr e ↦ rw e (one_by_one pktps h e)
      ]
    where
      one_by_one :
          (pktps : Bool)
          → weight (cost pktps) ps < 2 ^ 32
          → leb (weight (cost pktps) ps) bucket ≡ false
          → let by_packets : ℕ × List Bool =
              (bucket % 1000, packets_beyond (bucket / 1000) 0 (length ps)) in
            let drained = if pktps then by_packets else drain_bits size bucket ps in
            drained.0 + weight (cost pktps) (unmarked ps drained.1) ≡ bucket
      one_by_one true h e =
          let left = unmarked ps (packets_beyond (bucket / 1000) 0 (length ps)) in
          ground (
            arith,
            weight-packets ps,
            weight-packets left,
            packets_beyond-unmarked ps (bucket / 1000) 0,
          )
      one_by_one false h e = drain_bits-unmarked ps bucket h

  -- Over any batch whose cost fits in 32 bits: the packets that a meter accepts cost no more than
  -- each of its bands, of a rate above 0, has in its bucket once the time since the last batch has
  -- refilled it; a packet costs 1000 where the meter counts packets, and its bits where not.
  pub run_found_meter-limit :
      (meter : Meter) (packets : List P) (now k : ℕ) (b : Band)
      → get_elem? meter.bands k ≡ some b
      → 0 < b.rate
      → weight (cost (is_pktps meter.flags)) packets < 2 ^ 32
      → weight (cost (is_pktps meter.flags)) (run_found_meter size meter packets now).1
        ≤ refilled (meter_delta size meter now) b
  unfolding run_found_meter
  run_found_meter-limit meter packets now k b e p h =
      let pktps = is_pktps meter.flags in
      let delta_t = meter_delta size meter now in
      let volume = meter_volume size meter packets in
      let marks = marks_of size pktps delta_t volume packets b in
      let start = replicate (length packets) not_exceeded in
      let (drained, exceeded) = run_bands size pktps delta_t volume packets 0 meter.bands start in
      let covered =
        run_bands-Covers size pktps delta_t volume packets 0 k meter.bands start b
          (replicate-Plain (length packets)) e p in
      let kept =
        accepted-le-unmarked size pktps delta_t volume packets (cost pktps) drained packets marks
          exceeded covered in
      let saved : (drain_bucket size pktps volume packets (refilled delta_t b)).0
            + weight (cost pktps) (unmarked packets marks)
          ≡ refilled delta_t b =
        rw (volume-eq meter packets h)
          (drain_bucket-unmarked pktps packets (refilled delta_t b) h) in
      omega (arith, kept, saved)
