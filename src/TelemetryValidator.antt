-- ===== src/TelemetryValidator.antt =====
-- telemetry/TelemetryValidator.h and .cpp: readings that are old, not finite or out of range lose their
-- mark of validity.
pub mod Agreement
pub mod Stable
mod Tests
use multisensory_device.Base.{ℕ, ◌*◌, Bool, not, ◌&&◌, leb, ◌==◌, length, elapsed}
use multisensory_device.Base.Int.{ℤ, pos, negsuc}
use multisensory_device.Config.{
  dht_read_interval_ms, baro_read_interval_ms, light_read_interval_ms, imu_read_interval_ms,
  gps_fix_max_age_ms, acoustic_stale_ms,
}
use multisensory_device.Floats.{Floats, within}
use multisensory_device.AcousticTypes.{AcousticData}
use multisensory_device.AcousticClassifier.Categories.{known_acoustic_category}
use multisensory_device.TelemetryData.{
  TelemetryData, Dht11Data, LightData, GpsData, AccelData, AxesData, BarometerData, Gy801Data,
}

unfoldable pub is_fresh : ℕ → ℕ → ℕ → Bool
is_fresh now updated_at max_age = not (updated_at == 0) && leb (elapsed now updated_at) max_age

module _ (f : Floats) where
  open f.float use {is_finite}

  abbrev finite3 : f.Float → f.Float → f.Float → Bool
  finite3 x y z = is_finite x && is_finite y && is_finite z

  abbrev between : f.Float → ℤ → ℤ → Bool
  between x low high = within f.float x low high

  unfoldable pub validate_dht : Dht11Data f → ℕ → Dht11Data f
  validate_dht d now = record d {
    valid =
        d.valid
        && is_fresh now d.updated_at_ms (dht_read_interval_ms * 2)
        && is_finite d.temperature_c
        && is_finite d.humidity_percent
        && between d.temperature_c (pos 0) (pos 50)
        && between d.humidity_percent (pos 20) (pos 90);
  }

  unfoldable pub validate_gps : GpsData f → ℕ → GpsData f
  validate_gps d now = record d {
    valid =
        d.valid
        && is_fresh now d.updated_at_ms gps_fix_max_age_ms
        && f.double.is_finite d.latitude
        && f.double.is_finite d.longitude
        && is_finite d.altitude_m
        && is_finite d.speed_kmh
        && within f.double d.latitude (negsuc 89) (pos 90)
        && within f.double d.longitude (negsuc 179) (pos 180);
  }

  unfoldable pub validate_light : LightData f → ℕ → LightData f
  validate_light d now = record d {
    valid =
        d.valid
        && is_fresh now d.updated_at_ms (light_read_interval_ms * 3)
        && is_finite d.lux
        && between d.lux (pos 0) (pos 120000);
  }

  unfoldable pub validate_accel : AccelData f → ℕ → AccelData f
  validate_accel d now = record d {
    valid =
        d.valid && is_fresh now d.updated_at_ms (imu_read_interval_ms * 5) && finite3 d.x d.y d.z;
  }

  -- The gyroscope and the magnetometer.
  unfoldable pub validate_axes : AxesData f → ℕ → AxesData f
  validate_axes d now = record d {
    valid =
        d.valid && is_fresh now d.updated_at_ms (imu_read_interval_ms * 5) && finite3 d.x d.y d.z;
  }

  unfoldable pub validate_barometer : BarometerData f → ℕ → BarometerData f
  validate_barometer d now = record d {
    valid =
        d.valid
        && is_fresh now d.updated_at_ms (baro_read_interval_ms * 2)
        && is_finite d.raw_pressure_hpa
        && is_finite d.pressure_hpa
        && is_finite d.sea_level_pressure_hpa
        && is_finite d.temperature_c
        && is_finite d.altitude_m
        && between d.raw_pressure_hpa (pos 300) (pos 1100)
        && between d.pressure_hpa (pos 300) (pos 1100)
        && between d.sea_level_pressure_hpa (pos 800) (pos 1100);
  }

  unfoldable pub validate_gy801 : Gy801Data f → ℕ → Gy801Data f
  validate_gy801 d now =
      let accel = validate_accel d.accel now in
      let gyro = validate_axes d.gyro now in
      let mag = validate_axes d.mag now in
      record {
        accel = accel;
        gyro = gyro;
        mag = mag;
        barometer = validate_barometer d.barometer now;
        imu_valid = accel.valid && gyro.valid && mag.valid;
      }

  unfoldable pub validate_acoustic : AcousticData f → ℕ → AcousticData f
  validate_acoustic d now =
      let microphone_valid = d.microphone_valid && is_fresh now d.updated_at_ms acoustic_stale_ms in
      record d {
        microphone_valid = microphone_valid;
        analysis_valid =
            microphone_valid
            && d.analysis_valid
            && is_finite d.relative_level_dbfs
            && is_finite d.peak_dbfs
            && is_finite d.clipping_ratio
            && is_finite d.confidence
            && between d.relative_level_dbfs (negsuc 159) (pos 0)
            && between d.peak_dbfs (negsuc 159) (pos 0)
            && between d.clipping_ratio (pos 0) (pos 1)
            && between d.confidence (pos 0) (pos 1)
            && known_acoustic_category d.category
            && not (length d.classifier_version == 0)
            && leb (length d.classifier_version) 40;
      }

  unfoldable pub validate : TelemetryData f → ℕ → TelemetryData f
  validate d now = record d {
    dht = validate_dht d.dht now;
    gps = validate_gps d.gps now;
    light = validate_light d.light now;
    gy801 = validate_gy801 d.gy801 now;
    acoustic = validate_acoustic d.acoustic now;
  }
