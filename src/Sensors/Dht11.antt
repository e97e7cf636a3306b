-- ===== src/Sensors/Dht11.antt =====
-- sensors/DHT11Sensor.h and .cpp.
use multisensory_device.Base.{ℕ, Bool, true, false, not, ◌||◌, if◌then◌else◌}
use multisensory_device.Config.{dht_read_interval_ms, sensor_retry_interval_ms}
use multisensory_device.Floats.{Floats}
use multisensory_device.TelemetryData.{Dht11Data}
use multisensory_device.Sensors.{is_over, warns}

pub record Dht11Sensor (f : Floats) : Type 0 where
  pub reading : Dht11Data f
  pub started : Bool
  pub last_read_ms : ℕ
  pub last_warning_ms : ℕ

module _ (f : Floats) where
  unfoldable pub begin : Dht11Sensor f → Dht11Sensor f
  begin s = record s { started = true; reading = record s.reading { valid = false } }

  -- The readings are those that the DHT library gives in this call.
  unfoldable pub update : ℕ → f.Float → f.Float → Dht11Sensor f → Dht11Sensor f
  update now humidity temperature s =
      let failed = record s {
        last_read_ms = now;
        reading = record s.reading { valid = false };
        last_warning_ms =
            if warns sensor_retry_interval_ms now s.last_warning_ms then now else s.last_warning_ms;
      } in
      if not s.started || not (is_over dht_read_interval_ms now s.last_read_ms)
      then s
      else if not (f.float.is_finite humidity) || not (f.float.is_finite temperature)
      then failed
      else record s {
        last_read_ms = now;
        reading = record {
          temperature_c = temperature;
          humidity_percent = humidity;
          updated_at_ms = now;
          valid = true;
        };
      }
