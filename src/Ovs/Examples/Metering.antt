-- ===== src/Ovs/Examples/Metering.antt =====
-- The meters at concrete inputs. A packet is its size.
use repath.Base.{
  ℕ, zero, ◌+◌, ◌%◌, ◌^◌, ◌≤◌, ◌<◌, ◌≡◌, ◌↔◌, refl, true, some, none, List, [], ◌∷◌, ok, length,
  arith,
}
use repath.Ovs.Meter.{
  Band, Meter, refilled, meter_delta, meter_volume, drain_bucket, packets_beyond, raise, fire,
  bytes_from, run_bands, drop_exceeded, run_found_meter, max_meters, max_bands,
}
use repath.Ovs.Meter.Marks.{weight}
use repath.Ovs.Meter.Limit.{cost, run_found_meter-limit}
use repath.Ovs.Meter.Account.{fired, IsBucketed, run_found_meter-account}
use repath.Ovs.Meter.Table.{
  MeterConfig, dp_meter_lookup, dp_meter_attach, dp_meter_detach_free, all_drop, new_band,
  set_up_bands, dpif_netdev_meter_set,
}
use repath.Ovs.Meter.Table.Config.{AllUsable, dpif_netdev_meter_set_iff, meter_set-fills}
use repath.Ovs.Meter.Table.Lookup.{Lacks, AreUnique}

abbrev size : ℕ → ℕ
size p = p

-- Two packets a second, with a bucket for three, of which one and a half are there.
abbrev slow_band : Band
slow_band = record { rate = 2; burst_size = 3; bucket = 1500; packet_count = 0; byte_count = 0 }

-- A meter of packets that was last used at the first second.
abbrev packet_meter : Meter
packet_meter = record {
  id = 7;
  flags = 2;
  max_delta_t = 1500;
  used = 1000000;
  packet_count = 0;
  byte_count = 0;
  bands = slow_band ∷ [];
}

abbrev batch : List ℕ
batch = 100 ∷ 200 ∷ 300 ∷ 400 ∷ []

-- At the second second all three packets that the bucket holds are accepted.
three_accepted : (run_found_meter size packet_meter batch 2000000).1 ≡ 100 ∷ 200 ∷ 300 ∷ []
unfolding run_found_meter run_bands drop_exceeded meter_delta meter_volume drain_bucket
    packets_beyond raise fire bytes_from
three_accepted = refl

run_found_meter-limit_example :
    weight (cost size true) (run_found_meter size packet_meter batch 2000000).1
    ≤ refilled (meter_delta size packet_meter 2000000) slow_band
unfolding cost
run_found_meter-limit_example =
    run_found_meter-limit size packet_meter batch 2000000 0 slow_band refl (omega arith)
      (omega arith)

run_found_meter-account_example :
    let after : Meter = (run_found_meter size packet_meter batch 2000000).0 in
    let accepted : List ℕ = (run_found_meter size packet_meter batch 2000000).1 in
    ((fired after.bands + length accepted) % 2 ^ 64 ≡ (fired (slow_band ∷ []) + 4) % 2 ^ 64)
    × (after.packet_count ≡ (0 + 4) % 2 ^ 64)
    × IsBucketed after.bands
    × (after.used ≡ 2000000)
    × (after.id ≡ 7)
run_found_meter-account_example = run_found_meter-account size packet_meter batch 2000000

-- A configuration of two bands; the second has no burst size.
abbrev config : MeterConfig
config = record {
  flags = 1;
  bands =
      record { is_drop = true; rate = 3; burst_size = 10 }
      ∷ record { is_drop = true; rate = 5; burst_size = 0 }
      ∷ [];
}

dpif_netdev_meter_set_iff_example :
    ((t : List Meter) × (dpif_netdev_meter_set (packet_meter ∷ []) 7 config 5 ≡ ok (none, t)))
    ↔ ((7 < max_meters) × (1 < 16) × (2 ≤ max_bands) × AllUsable config.bands)
dpif_netdev_meter_set_iff_example = dpif_netdev_meter_set_iff (packet_meter ∷ []) 7 config 5

abbrev new_bands : List Band
new_bands =
    record { rate = 3; burst_size = 10; bucket = 10000; packet_count = 0; byte_count = 0 }
    ∷ record { rate = 5; burst_size = 5; bucket = 5000; packet_count = 0; byte_count = 0 }
    ∷ []

bands_set_up : set_up_bands 0 config.bands ≡ ok (new_bands, 3333)
unfolding set_up_bands new_band
bands_set_up = refl

-- The first bucket is filled up to 9999 of 10000.
meter_set-fills_example :
    (10000 ≡ zero + 10000)
    × (10000
        < refilled 3333
            (record { rate = 3; burst_size = 10; bucket = 0; packet_count = 0; byte_count = 0 })
          + 3)
meter_set-fills_example =
    meter_set-fills config.bands 0 bands_set_up refl (omega arith) (omega arith)

-- A slow band makes the greatest time so long that the bucket of a fast one wraps around.
bucket_wraps :
    refilled 4294967000 (record {
      rate = 4294967295;
      burst_size = 4294967295;
      bucket = 4294967295000;
      packet_count = 0;
      byte_count = 0;
    })
    < 4294967295000
bucket_wraps = omega arith

one-AreUnique : AreUnique (packet_meter ∷ [])
unfolding AreUnique Lacks
one-AreUnique = (tt, tt)

abbrev new_meter : Meter
new_meter = record {
  id = 8;
  flags = 1;
  max_delta_t = 3333;
  used = 5;
  packet_count = 0;
  byte_count = 0;
  bands = new_bands;
}

meter_set :
    dpif_netdev_meter_set (packet_meter ∷ []) 8 config 5 ≡ ok (none, new_meter ∷ packet_meter ∷ [])
unfolding dpif_netdev_meter_set set_up_bands new_band dp_meter_attach dp_meter_detach_free all_drop
meter_set = refl

packet_meter_found : dp_meter_lookup (packet_meter ∷ []) 7 ≡ some packet_meter
unfolding dp_meter_lookup
packet_meter_found = refl
