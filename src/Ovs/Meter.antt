-- ===== src/Ovs/Meter.antt =====
-- The meters of dpif-netdev.c: token buckets that drop packets. A packet is anything that has a
-- size; locks are left out.
pub mod Marks
pub mod Limit
pub mod Account
pub mod Table
use repath.Base.{
  ℕ, zero, suc, ◌+◌, ◌-◌, ◌*◌, ◌/◌, ◌%◌, ◌^◌, Bool, true, false, Option, none, some, List, [], ◌∷◌,
  get_elem?, set, length, ltb, leb, ◌==◌, if◌then◌else◌, to_u32, add64, mul64, min, replicate,
}

abbrev pub max_meters : ℕ
max_meters = 2 ^ 18

abbrev pub max_bands : ℕ
max_bands = 8

-- struct dp_meter_band: the bucket is in 1/1000 packets, or in bits.
pub record Band : Type 0 where
  pub rate : ℕ
  pub burst_size : ℕ
  pub bucket : ℕ
  pub packet_count : ℕ
  pub byte_count : ℕ

-- struct dp_meter; its number of bands is the length of the list.
pub record Meter : Type 0 where
  pub id : ℕ
  pub flags : ℕ
  pub max_delta_t : ℕ
  pub used : ℕ
  pub packet_count : ℕ
  pub byte_count : ℕ
  pub bands : List Band

-- meter->flags & OFPMF13_PKTPS, the bit 1 of OpenFlow 1.3
abbrev pub is_pktps : ℕ → Bool
is_pktps flags = flags / 2 % 2 == 1

-- exceeded_rate[i] and exceeded_band[i], which is -1 at first.
pub record Exceeded : Type 0 where
  pub rate : ℕ
  pub band : Option ℕ

abbrev pub not_exceeded : Exceeded
not_exceeded = record { rate = 0; band = none }

-- band->burst_size * 1000ULL
abbrev pub max_bucket_size : Band → ℕ
max_bucket_size b = mul64 b.burst_size 1000

-- The bucket once the time since the last packets has filled it.
abbrev pub refilled : ℕ → Band → ℕ
refilled delta_t b = min (add64 b.bucket (mul64 delta_t b.rate)) (max_bucket_size b)

-- Which of so many packets, from number `i` on, stand behind the first `k`.
unfoldable pub packets_beyond : ℕ → ℕ → ℕ → List Bool
packets_beyond k i zero = []
packets_beyond k i (suc n) = leb k i ∷ packets_beyond k (i + 1) n

-- Band number `m` replaces the exceeding band of the packets that exceed it, where its rate is
-- higher.
unfoldable pub raise : ℕ → ℕ → List Bool → List Exceeded → List Exceeded
raise m rate (true ∷ marks) (e ∷ exceeded) =
    (if ltb e.rate rate then record { rate = rate; band = some m } else e)
    ∷ raise m rate marks exceeded
raise m rate (false ∷ marks) (e ∷ exceeded) = e ∷ raise m rate marks exceeded
raise m rate [] exceeded = exceeded
raise m rate (b ∷ marks) [] = []

-- A dropped packet is counted at its band.
unfoldable pub fire : List Band → ℕ → ℕ → List Band
fire bands m bytes = elim (get_elem? bands m) [
  | none ↦ bands
  | some b ↦
      set bands m
        (record b { packet_count = add64 b.packet_count 1; byte_count = add64 b.byte_count bytes })
]

module _ {P : Type 0} (size : P → ℕ) where
  -- The sum of the sizes, in 32 bits.
  unfoldable pub bytes_from : ℕ → List P → ℕ
  bytes_from bytes [] = bytes
  bytes_from bytes (p ∷ packets) = bytes_from (to_u32 (bytes + size p)) packets

  -- The bucket after packets that are taken from it one by one, where they fit, and which did not.
  pub drain_bits : ℕ → List P → ℕ × List Bool
  drain_bits bucket [] = (bucket, [])
  drain_bits bucket (p ∷ packets) =
      let bits = to_u32 (size p * 8) in
      let fits = drain_bits (bucket - bits) packets in
      let exceeds = drain_bits bucket packets in
      if leb bits bucket then (fits.0, false ∷ fits.1) else (exceeds.0, true ∷ exceeds.1)

  -- What a batch of a given volume leaves in a bucket, and which packets exceed it.
  unfoldable pub drain_bucket : Bool → ℕ → List P → ℕ → ℕ × List Bool
  unfolding packets_beyond drain_bits
  drain_bucket pktps volume packets bucket =
      let within : ℕ × List Bool = (bucket - volume, replicate (length packets) false) in
      let by_packets : ℕ × List Bool =
        (bucket % 1000, packets_beyond (bucket / 1000) 0 (length packets)) in
      let by_bits = drain_bits bucket packets in
      if leb volume bucket then within else if pktps then by_packets else by_bits

  -- The update of a band by a batch: its bucket, and which packets exceed it.
  abbrev pub drain_band : Bool → ℕ → ℕ → List P → Band → ℕ × List Bool
  drain_band pktps delta_t volume packets b = drain_bucket pktps volume packets (refilled delta_t b)

  -- The loop over the bands, from number `m` on. The first exceeding packet, which the code also
  -- looks for, is used by nothing.
  unfoldable pub run_bands :
      Bool → ℕ → ℕ → List P → ℕ → List Band → List Exceeded → List Band × List Exceeded
  unfolding drain_bucket raise
  run_bands pktps delta_t volume packets m [] exceeded = ([], exceeded)
  run_bands pktps delta_t volume packets m (b ∷ bands) exceeded =
      let (bucket, marks) = drain_band pktps delta_t volume packets b in
      let (rest, final) =
        run_bands pktps delta_t volume packets (m + 1) bands (raise m b.rate marks exceeded) in
      (record b { bucket = bucket } ∷ rest, final)

  -- The loop that drops packets: the bands, and the packets that the meter accepts.
  unfoldable pub drop_exceeded : List Band → List P → List Exceeded → List Band × List P
  unfolding fire
  drop_exceeded bands [] exceeded = (bands, [])
  drop_exceeded bands (p ∷ packets) [] = (bands, [])
  drop_exceeded bands (p ∷ packets) (e ∷ exceeded) = elim e.band [
    | some m ↦ drop_exceeded (fire bands m (size p)) packets exceeded
    | none ↦ let rest = drop_exceeded bands packets exceeded in (rest.0, p ∷ rest.1)
  ]

  -- The time since the meter's last use in milliseconds, 0 if another thread was later, and no more
  -- than fills every bucket.
  unfoldable pub meter_delta : Meter → ℕ → ℕ
  meter_delta meter now = min (now / 1000 - meter.used / 1000) meter.max_delta_t

  -- What the batch takes from each bucket.
  unfoldable pub meter_volume : Meter → List P → ℕ
  unfolding bytes_from
  meter_volume meter packets =
      if is_pktps meter.flags
      then to_u32 (length packets * 1000)
      else to_u32 (bytes_from 0 packets * 8)

  -- The work of dp_netdev_run_meter once the meter is found; the arrays hold 32 packets, as many as
  -- a batch has at most.
  unfoldable pub run_found_meter : Meter → List P → ℕ → Meter × List P
  unfolding run_bands drop_exceeded meter_delta meter_volume
  run_found_meter meter packets now =
      let start = replicate (length packets) not_exceeded in
      let (drained, exceeded) =
        run_bands (is_pktps meter.flags) (meter_delta meter now) (meter_volume meter packets)
          packets 0 meter.bands start in
      let (bands, accepted) = drop_exceeded drained packets exceeded in
      (
        record meter {
          used = now;
          packet_count = add64 meter.packet_count (length packets);
          byte_count = add64 meter.byte_count (bytes_from 0 packets);
          bands = bands;
        },
        accepted,
      )
