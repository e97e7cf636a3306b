-- ===== src/Calibration/Store.antt =====
-- calibration/BarometerCalibrationStore.h and .cpp: the reference pressure, kept in non-volatile storage.
use multisensory_device.Base.{
  ℕ, ◌≡◌, refl, sym, ap, ◌∙◌, Bool, true, false, not, ◌&&◌, ◌||◌, List, arith, ◌==◌, if◌then◌else◌,
}
use multisensory_device.Base.Text.{codes}
use multisensory_device.Base.Int.{pos}
use multisensory_device.Floats.{Floats}
use multisensory_device.TelemetryData.{
  BarometerCalibrationSource, by_default, known_altitude, by_gps,
}
use multisensory_device.Calibration.{is_valid_sea_level_pressure}

-- What is used of the Preferences library, for the namespace of the calibration: a value is read with a
-- default, and a write says how many bytes it stored.
pub record CalibrationNvs (f : Floats) : Type 1 where
  pub Nvs : Type 0
  -- begin() to read and begin() to write
  pub opens_to_read : Nvs → Bool
  pub opens_to_write : Nvs → Bool
  pub clear_all : Nvs → Bool × Nvs
  pub get_version : Nvs → ℕ
  pub put_version : Nvs → ℕ → ℕ × Nvs
  pub get_pressure : Nvs → f.Float → f.Float
  pub put_pressure : Nvs → f.Float → ℕ × Nvs
  pub get_source : Nvs → ℕ
  pub put_source : Nvs → ℕ → ℕ × Nvs

-- Storage whose three values are apart, and that keeps what it says it has stored.
pub record KeepsCalibration {f : Floats} (n : CalibrationNvs f) : Type 0 where
  pub version_kept :
      (s : n.Nvs) (v : ℕ) → (n.put_version s v).0 ≡ 2 → n.get_version (n.put_version s v).1 ≡ v
  pub pressure_kept :
      (s : n.Nvs) (x default : f.Float)
      → (n.put_pressure s x).0 ≡ 4
      → n.get_pressure (n.put_pressure s x).1 default ≡ x
  pub source_kept :
      (s : n.Nvs) (v : ℕ) → (n.put_source s v).0 ≡ 1 → n.get_source (n.put_source s v).1 ≡ v
  pub version_apart :
      (s : n.Nvs) (x : f.Float) (v : ℕ)
      → (n.get_version (n.put_pressure s x).1 ≡ n.get_version s)
        × (n.get_version (n.put_source s v).1 ≡ n.get_version s)
  pub pressure_apart :
      (s : n.Nvs) (default : f.Float) (v : ℕ)
      → n.get_pressure (n.put_source s v).1 default ≡ n.get_pressure s default

pub record StoredBarometerCalibration (f : Floats) : Type 0 where
  pub sea_level_pressure_hpa : f.Float
  pub calibration_source : BarometerCalibrationSource
  pub persisted : Bool

-- The enumerators' values; another byte is no source that is stored.
unfoldable pub source_code : BarometerCalibrationSource → ℕ
source_code by_default = 0
source_code known_altitude = 1
source_code by_gps = 2

abbrev storage_version : ℕ
storage_version = 1

abbrev is_persistent_source : ℕ → Bool
is_persistent_source code = code == 1 || code == 2

abbrev source_of_code : ℕ → BarometerCalibrationSource
source_of_code code = if code == 1 then known_altitude else if code == 2 then by_gps else by_default

unfoldable pub source_name : BarometerCalibrationSource → List ℕ
source_name known_altitude = codes "known_altitude"
source_name by_gps = codes "gps"
source_name by_default = codes "default"

module _ (f : Floats) (nan : f.Float) (pow : f.Float → f.Float → f.Float)
    (n : CalibrationNvs f) where
  abbrev default_calibration : StoredBarometerCalibration f
  default_calibration = record {
    sea_level_pressure_hpa = f.float.literal (pos 1008) 0;
    calibration_source = by_default;
    persisted = false;
  }

  unfoldable pub load : n.Nvs → StoredBarometerCalibration f
  load s =
      let pressure = n.get_pressure s nan in
      let code = n.get_source s in
      if not (n.opens_to_read s)
      then default_calibration
      else if n.get_version s == storage_version
          && is_valid_sea_level_pressure f nan pow pressure
          && is_persistent_source code
      then record {
        sea_level_pressure_hpa = pressure;
        calibration_source = source_of_code code;
        persisted = true;
      }
      else default_calibration

  unfoldable pub save : f.Float → BarometerCalibrationSource → n.Nvs → Bool × n.Nvs
  save pressure source s =
      let (cleared, s1) = n.clear_all s in
      let (version_count, s2) = n.put_version s1 storage_version in
      let (pressure_count, s3) = n.put_pressure s2 pressure in
      let (source_count, s4) = n.put_source s3 (source_code source) in
      if not (is_valid_sea_level_pressure f nan pow pressure)
        || not (is_persistent_source (source_code source))
      then (false, s)
      else if not (n.opens_to_write s)
      then (false, s)
      else (cleared && version_count == 2 && pressure_count == 4 && source_count == 1, s4)

  unfoldable pub clear : n.Nvs → Bool × n.Nvs
  clear s = if not (n.opens_to_write s) then (false, s) else n.clear_all s

  -- The storage after the writes of a save.
  abbrev written : f.Float → ℕ → n.Nvs → n.Nvs
  written pressure code s =
      let s1 = (n.clear_all s).1 in
      let s2 = (n.put_version s1 storage_version).1 in
      let s3 = (n.put_pressure s2 pressure).1 in (n.put_source s3 code).1

  saved :
      (pressure : f.Float) (source : BarometerCalibrationSource) (s : n.Nvs)
      → (save pressure source s).0 ≡ true
      → let s1 = (n.clear_all s).1 in
        let s2 = (n.put_version s1 storage_version).1 in
        let s3 = (n.put_pressure s2 pressure).1 in
        ((save pressure source s).1 ≡ written pressure (source_code source) s)
        × (is_valid_sea_level_pressure f nan pow pressure ≡ true)
        × (is_persistent_source (source_code source) ≡ true)
        × ((n.put_version s1 storage_version).0 ≡ 2)
        × ((n.put_pressure s2 pressure).0 ≡ 4)
        × ((n.put_source s3 (source_code source)).0 ≡ 1)
  unfolding save
  saved pressure source s h = ground (arith, h)

  -- What a load makes of the three values.
  load_lem :
      (pressure : f.Float) (code : ℕ) (s : n.Nvs)
      → n.opens_to_read s ≡ true
      → n.get_version s ≡ storage_version
      → n.get_pressure s nan ≡ pressure
      → n.get_source s ≡ code
      → is_valid_sea_level_pressure f nan pow pressure ≡ true
      → is_persistent_source code ≡ true
      → load s ≡ record {
        sea_level_pressure_hpa = pressure;
        calibration_source = source_of_code code;
        persisted = true;
      }
  unfolding load
  load_lem pressure code s r v p c valid persistent = ground (arith, r, v, p, c, valid, persistent)

  source_of_code-source_code :
      (source : BarometerCalibrationSource) → source_of_code (source_code source) ≡ source
  unfolding source_code
  source_of_code-source_code by_default = refl
  source_of_code-source_code known_altitude = refl
  source_of_code-source_code by_gps = refl

  module _ (keeps : KeepsCalibration n) where
    -- A calibration that was saved is the one that the next start loads, where the storage can be read then:
    -- the same pressure from the same source.
    pub load-save :
        (pressure : f.Float) (source : BarometerCalibrationSource) (s : n.Nvs)
        → (save pressure source s).0 ≡ true
        → n.opens_to_read (save pressure source s).1 ≡ true
        → load (save pressure source s).1 ≡ record {
          sea_level_pressure_hpa = pressure;
          calibration_source = source;
          persisted = true;
        }
    load-save pressure source s h k =
        let (same, valid, persistent, v, p, c) = saved pressure source s h in
        let s1 = (n.clear_all s).1 in
        let s2 = (n.put_version s1 storage_version).1 in
        let s3 = (n.put_pressure s2 pressure).1 in
        let code = source_code source in
        let version =
          (keeps.version_apart s3 pressure code).1
          ∙ (keeps.version_apart s2 pressure code).0
          ∙ keeps.version_kept s1 storage_version v in
        let stored = keeps.pressure_apart s3 nan code ∙ keeps.pressure_kept s2 pressure nan p in
        let readable : n.opens_to_read (written pressure code s) ≡ true =
          sym (ap n.opens_to_read same) ∙ k in
        let loaded =
          load_lem pressure code (written pressure code s) readable version stored
            (keeps.source_kept s3 code c) valid persistent in
        ap load same
        ∙ loaded
        ∙ ap
            (λ source. record {
              sea_level_pressure_hpa = pressure;
              calibration_source = source;
              persisted = true;
            })
            (source_of_code-source_code source)
