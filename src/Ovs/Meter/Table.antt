-- ===== src/Ovs/Meter/Table.antt =====
-- The table of meters of dpif-netdev.c: looking up, setting, reading and deleting a meter, and
-- running one on a batch. The hash map is a list, the meter attached last in front; xzalloc ends
-- the process rather than fail, and config keeps the burst size that it came with.
pub mod Config
pub mod Lookup
use repath.Base.{
  ℕ, zero, suc, ◌+◌, ◌*◌, ◌/◌, ◌^◌, ◌≤◌, ◌<◌, Bool, true, false, not, Option, none, some, List, [],
  ◌∷◌, Result, ok, ◌>>=◌, ◌>>◌, defined, length, ltb, leb, ◌==◌, if◌then◌else◌, to_u32, mul64, take,
}
use repath.Ovs.Meter.{Band, Meter, max_meters, max_bands, run_found_meter}

pub data Errno : Type 0 where
  efbig : Errno
  ebadf : Errno
  einval : Errno
  enodev : Errno
  enoent : Errno

-- struct ofputil_meter_config: is_drop says that the type of a band is OFPMBT13_DROP.
pub record BandConfig : Type 0 where
  pub is_drop : Bool
  pub rate : ℕ
  pub burst_size : ℕ

pub record MeterConfig : Type 0 where
  pub flags : ℕ
  pub bands : List BandConfig

unfoldable pub dp_meter_lookup : List Meter → ℕ → Option Meter
dp_meter_lookup [] meter_id = none
dp_meter_lookup (m ∷ meters) meter_id =
    let rest = dp_meter_lookup meters meter_id in if m.id == meter_id then some m else rest

unfoldable pub dp_meter_detach_free : List Meter → ℕ → List Meter
dp_meter_detach_free [] meter_id = []
dp_meter_detach_free (m ∷ meters) meter_id =
    let rest = dp_meter_detach_free meters meter_id in if m.id == meter_id then meters else m ∷ rest

unfoldable pub dp_meter_attach : List Meter → Meter → List Meter
dp_meter_attach meters meter = meter ∷ meters

-- The meter that dp_meter_lookup finds is changed where it stands.
pub update_meter : List Meter → Meter → List Meter
update_meter [] meter = []
update_meter (m ∷ meters) meter =
    let rest = update_meter meters meter in if m.id == meter.id then meter ∷ meters else m ∷ rest

pub dp_netdev_run_meter : {P : Type 0} → (P → ℕ) → List Meter → List P → ℕ → ℕ → List Meter × List P
unfolding dp_meter_lookup update_meter
dp_netdev_run_meter size meters packets meter_id now =
    if leb max_meters meter_id then (meters, packets) else elim (dp_meter_lookup meters meter_id) [
      | none ↦ (meters, packets)
      | some meter ↦
          let (after, accepted) = run_found_meter size meter packets now in
          (update_meter meters after, accepted)
    ]

-- No band is of an unsupported type.
unfoldable pub all_drop : List BandConfig → Bool
all_drop [] = true
all_drop (c ∷ bands) = let rest = all_drop bands in if c.is_drop then rest else false

-- A band with a full bucket; without a burst size the rate is taken.
unfoldable pub new_band : BandConfig → Band
new_band c =
    let burst_size = if c.burst_size == 0 then c.rate else c.burst_size in
    record {
      rate = c.rate;
      burst_size = burst_size;
      bucket = mul64 burst_size 1000;
      packet_count = 0;
      byte_count = 0;
    }

-- The loop that sets up the bands: their list and max_delta_t. A rate of 0 divides by zero.
unfoldable pub set_up_bands : ℕ → List BandConfig → Result (List Band × ℕ)
unfolding new_band
set_up_bands max_delta_t [] = ok ([], max_delta_t)
set_up_bands max_delta_t (c ∷ bands) = do
  let band = new_band c
  defined (ltb 0 band.rate)
  let band_max_delta_t = to_u32 (band.bucket / band.rate)
  (rest, final) ←
      set_up_bands (if ltb max_delta_t band_max_delta_t then band_max_delta_t else max_delta_t)
        bands
  ok (band ∷ rest, final)

-- dpif_netdev_meter_set at a time: `none` is the return value 0. The flags that are supported are
-- the low four bits.
unfoldable pub dpif_netdev_meter_set :
    List Meter → ℕ → MeterConfig → ℕ → Result (Option Errno × List Meter)
unfolding set_up_bands dp_meter_detach_free dp_meter_attach all_drop
dpif_netdev_meter_set meters mid config now =
    let created = do
      (bands, max_delta_t) ← set_up_bands 0 config.bands
      ok (
        none,
        dp_meter_attach (dp_meter_detach_free meters mid) (record {
          id = mid;
          flags = config.flags;
          max_delta_t = max_delta_t;
          used = now;
          packet_count = 0;
          byte_count = 0;
          bands = bands;
        }),
      )
    in if leb max_meters mid
      then ok (some efbig, meters)
      else if leb 16 config.flags
      then ok (some ebadf, meters)
      else if ltb max_bands (length config.bands)
      then ok (some einval, meters)
      else if not (all_drop config.bands)
      then ok (some enodev, meters)
      else created

-- struct ofputil_meter_stats: the packets and bytes of the meter and of its bands.
pub record MeterStats : Type 0 where
  pub packet_in_count : ℕ
  pub byte_in_count : ℕ
  pub bands : List (ℕ × ℕ)

pub band_stats : List Band → List (ℕ × ℕ)
band_stats [] = []
band_stats (b ∷ bands) = (b.packet_count, b.byte_count) ∷ band_stats bands

-- dpif_netdev_meter_get into stats with room for so many bands: an error, or the stats.
pub data MeterGet : Type 0 where
  failed : Errno → MeterGet
  stats : MeterStats → MeterGet

pub dpif_netdev_meter_get : List Meter → ℕ → ℕ → MeterGet
unfolding dp_meter_lookup band_stats
dpif_netdev_meter_get meters meter_id n_bands =
    if leb max_meters meter_id then failed efbig else elim (dp_meter_lookup meters meter_id) [
      | none ↦ failed enoent
      | some m ↦ stats (record {
        packet_in_count = m.packet_count;
        byte_in_count = m.byte_count;
        bands = take n_bands (band_stats m.bands);
      })
    ]

-- dpif_netdev_meter_del: what dpif_netdev_meter_get says, and the table afterwards.
pub dpif_netdev_meter_del : List Meter → ℕ → ℕ → MeterGet × List Meter
unfolding dpif_netdev_meter_get dp_meter_detach_free
dpif_netdev_meter_del meters meter_id n_bands =
    elim (dpif_netdev_meter_get meters meter_id n_bands) [
      | failed e ↦ (failed e, meters)
      | stats s ↦ (stats s, dp_meter_detach_free meters meter_id)
    ]
