-- ===== src/Sensors/Bh1750.antt =====
-- sensors/BH1750Sensor.h and .cpp.
use multisensory_device.Base.{ℕ, Bool, true, false, not, ◌&&◌, ◌==◌, if◌then◌else◌}
use multisensory_device.Base.Int.{pos}
use multisensory_device.Config.{light_read_interval_ms, sensor_retry_interval_ms}
use multisensory_device.Floats.{Floats, within}
use multisensory_device.TelemetryData.{LightData}
use multisensory_device.Sensors.{is_over}

-- What is used of the Wire and BH1750 libraries: whether a device answers at an address, the start of a
-- measurement, and a reading.
pub record LightBus (f : Floats) : Type 1 where
  pub Bus : Type 0
  pub probe : Bus → ℕ → Bool
  pub begin_meter : Bus → ℕ → Bool × Bus
  pub read_level : Bus → f.Float × Bus

pub record Bh1750Sensor (f : Floats) : Type 0 where
  pub reading : LightData f
  pub address : ℕ
  pub started : Bool
  pub last_read_ms : ℕ
  pub last_begin_attempt_ms : ℕ

abbrev address_primary : ℕ
address_primary = 0x23

abbrev address_alternate : ℕ
address_alternate = 0x5C

-- `nan` is NAN.
module _ (f : Floats) (nan : f.Float) (bus : LightBus f) where
  open bus use {Bus, probe, begin_meter, read_level}

  abbrev invalidated : LightData f → LightData f
  invalidated d = record d { valid = false }

  abbrev address_found : Bus → ℕ
  address_found b =
      if probe b address_primary
      then address_primary
      else if probe b address_alternate
      then address_alternate
      else 0

  -- `millis` is the clock at the call's start.
  unfoldable pub begin : ℕ → Bh1750Sensor f → Bus → Bool × Bh1750Sensor f × Bus
  begin millis s b =
      let address = address_found b in
      let tried = record s { last_begin_attempt_ms = millis; address = address } in
      let off = record tried { started = false; reading = invalidated s.reading } in
      let (started, b1) = begin_meter b address in
      if address == 0
      then (false, off, b)
      else if started
      then (true, record tried { started = true }, b1)
      else (false, off, b1)

  abbrev pub is_lux : f.Float → Bool
  is_lux lux = f.float.is_finite lux && within f.float lux (pos 0) (pos 120000)

  unfoldable pub read : ℕ → Bh1750Sensor f → Bus → Bh1750Sensor f × Bus
  read now s b =
      let (lux, b1) = read_level b in
      (
        record s {
          last_read_ms = now;
          reading = record {
            lux = if is_lux lux then lux else nan;
            valid = is_lux lux;
            updated_at_ms = now;
          };
        },
        b1,
      )

  unfoldable pub update : ℕ → ℕ → Bh1750Sensor f → Bus → Bh1750Sensor f × Bus
  update now millis s b =
      let (ok, restarted, b1) = begin millis s b in
      let lost = record s {
        last_read_ms = now;
        started = false;
        reading = invalidated s.reading;
        last_begin_attempt_ms = now;
      } in
      if not s.started
      then if is_over sensor_retry_interval_ms now s.last_begin_attempt_ms
        then (restarted, b1)
        else (s, b)
      else if not (is_over light_read_interval_ms now s.last_read_ms)
      then (s, b)
      else if not (probe b s.address)
      then (lost, b)
      else read now s b
