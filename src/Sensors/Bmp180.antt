-- ===== src/Sensors/Bmp180.antt =====
-- sensors/gy801/BMP180Barometer.h and .cpp.
use multisensory_device.Base.{ℕ, Bool, true, false, not, ◌&&◌, ◌||◌, if◌then◌else◌}
use multisensory_device.Calibration.{
  is_valid_sea_level_pressure, apply_pressure_offset, altitude_from_pressure, is_no_pressure,
}
use multisensory_device.Config.{baro_read_interval_ms, sensor_retry_interval_ms}
use multisensory_device.Floats.{Floats}
use multisensory_device.TelemetryData.{BarometerData, BarometerCalibrationSource}
use multisensory_device.Sensors.{is_over}

-- What is used of the Wire and Adafruit libraries: whether the chip answers with its id, the start of a
-- measurement, and a reading of the pressure and the temperature.
pub record PressureBus (f : Floats) : Type 1 where
  pub Bus : Type 0
  pub probe : Bus → Bool
  pub begin_meter : Bus → Bool × Bus
  pub measure : Bus → f.Float × f.Float × Bus

pub record Bmp180Barometer (f : Floats) : Type 0 where
  pub reading : BarometerData f
  pub started : Bool
  pub sea_level_pressure_hpa : f.Float
  pub pressure_offset_hpa : f.Float
  pub calibration_source : BarometerCalibrationSource
  pub last_read_ms : ℕ
  pub last_begin_attempt_ms : ℕ

module _ (f : Floats) (nan : f.Float) (pow : f.Float → f.Float → f.Float) where
  -- The pressure and the altitude of a raw pressure under a calibration.
  abbrev pub pressure_of : f.Float → f.Float → f.Float
  pressure_of raw offset = apply_pressure_offset f nan pow raw offset

  abbrev pub altitude_of : f.Float → f.Float → f.Float → f.Float
  altitude_of raw offset sea_level =
      altitude_from_pressure f nan pow (pressure_of raw offset) sea_level

  unfoldable pub set_calibration :
      f.Float → f.Float → BarometerCalibrationSource → Bmp180Barometer f → Bool × Bmp180Barometer f
  set_calibration sea_level offset source b =
      let d = b.reading in
      let named = record d { sea_level_pressure_hpa = sea_level; calibration_source = source } in
      let pressure = pressure_of d.raw_pressure_hpa offset in
      let altitude = altitude_of d.raw_pressure_hpa offset sea_level in
      let computed = record named {
        pressure_hpa = pressure;
        altitude_m = altitude;
        valid =
            f.float.is_finite pressure
            && f.float.is_finite altitude
            && f.float.is_finite d.temperature_c;
      } in
      let set = record b {
        sea_level_pressure_hpa = sea_level;
        pressure_offset_hpa = offset;
        calibration_source = source;
      } in
      if not (is_valid_sea_level_pressure f nan pow sea_level) || not (f.float.is_finite offset)
      then (false, b)
      else if f.float.is_finite d.raw_pressure_hpa
      then (true, record set { reading = computed })
      else (true, record set { reading = named })

  module _ (bus : PressureBus f) where
    open bus use {Bus, probe, begin_meter, measure}

    -- `millis` is the clock at the call's start.
    unfoldable pub begin : ℕ → Bmp180Barometer f → Bus → Bool × Bmp180Barometer f × Bus
    begin millis b w =
        let tried = record b { last_begin_attempt_ms = millis } in
        let (started, w1) = begin_meter w in
        if not (probe w)
        then (
          false,
          record tried { started = false; reading = record b.reading { valid = false } },
          w,
        )
        else (started, record tried { started = started }, w1)

    unfoldable pub read : ℕ → Bmp180Barometer f → Bus → Bmp180Barometer f × Bus
    read now b w =
        let (raw, temperature, w1) = measure w in
        let timed = record b { last_read_ms = now } in
        let pressure = pressure_of raw b.pressure_offset_hpa in
        let altitude = altitude_of raw b.pressure_offset_hpa b.sea_level_pressure_hpa in
        if is_no_pressure f nan pow raw || not (f.float.is_finite temperature)
        then (record timed { reading = record b.reading { valid = false } }, w1)
        else (
          record timed {
            reading = record {
              raw_pressure_hpa = raw;
              pressure_hpa = pressure;
              temperature_c = temperature;
              sea_level_pressure_hpa = b.sea_level_pressure_hpa;
              calibration_source = b.calibration_source;
              altitude_m = altitude;
              updated_at_ms = now;
              valid = f.float.is_finite pressure && f.float.is_finite altitude;
            };
          },
          w1,
        )

    unfoldable pub update : ℕ → ℕ → Bmp180Barometer f → Bus → Bmp180Barometer f × Bus
    update now millis b w =
        let (ok, restarted, w1) = begin millis b w in
        let lost = record b {
          last_read_ms = now;
          reading = record b.reading { valid = false };
          started = false;
          last_begin_attempt_ms = now;
        } in
        if not b.started
        then if is_over sensor_retry_interval_ms now b.last_begin_attempt_ms
          then (restarted, w1)
          else (b, w)
        else if not (is_over baro_read_interval_ms now b.last_read_ms)
        then (b, w)
        else if not (probe w)
        then (lost, w)
        else read now b w
