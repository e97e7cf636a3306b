-- ===== src/Sensors/Tests.antt =====
-- The theorems on the sensors at one reading each.
use multisensory_device.Base.{ℕ, ◌≡◌, ◌&&◌, refl, true, false, some, List, [], ◌∷◌}
use multisensory_device.Base.Int.{pos}
use multisensory_device.Floats.{within}
use multisensory_device.Floats.Fixed.{fixed_floats}
use multisensory_device.Calibration.{is_valid_sea_level_pressure}
use multisensory_device.TelemetryData.{by_gps}
use multisensory_device.TelemetryData.Sample.{tenths, barometer, gps}
use multisensory_device.TelemetryValidator.{is_fresh, validate_barometer}
use multisensory_device.TimeService.{broken_time}
use multisensory_device.Sensors.Gps.{
  TinyGps, GpsNeo6m, note_quality, fresh_utc, fresh_fix, note_utc, note_fix, note_silence,
  read_bytes, update,
}
use multisensory_device.Sensors.GpsClock.{IsDate, update-IsDate}
use multisensory_device.Sensors.Bmp180.{PressureBus, Bmp180Barometer}
use multisensory_device.Sensors.BarometerChecks.{
  Step, tick, calibrate, after, validate_barometer-after,
}

abbrev bus : PressureBus fixed_floats
bus = record {
  Bus = ℕ;
  probe = λ b. true;
  begin_meter = λ b. (true, b);
  measure = λ b. (tenths 9980, tenths 240, b);
}

abbrev pow : ℕ → ℕ → ℕ
pow x y = x

abbrev idle : Bmp180Barometer fixed_floats
idle = record {
  reading = record barometer { valid = false };
  started = true;
  sea_level_pressure_hpa = tenths 10080;
  pressure_offset_hpa = tenths 0;
  calibration_source = by_gps;
  last_read_ms = 0;
  last_begin_attempt_ms = 0;
}

abbrev steps : List (Step fixed_floats 0 pow bus)
steps = tick 5000 5000 0 ∷ calibrate (tenths 10100) (tenths 5) by_gps ∷ []

sea_level_run : is_valid_sea_level_pressure fixed_floats 0 pow idle.sea_level_pressure_hpa ≡ true
unfolding is_valid_sea_level_pressure
sea_level_run = refl

validate_barometer-after_example :
    let d = (after fixed_floats 0 pow bus steps idle).reading in
    (validate_barometer fixed_floats d 6000).valid ≡ (
      d.valid
      && is_fresh 6000 d.updated_at_ms 4000
      && within fixed_floats.float d.raw_pressure_hpa (pos 300) (pos 1100)
      && within fixed_floats.float d.pressure_hpa (pos 300) (pos 1100))
validate_barometer-after_example =
    validate_barometer-after fixed_floats 0 pow bus steps idle 6000 sea_level_run refl

abbrev receiver : TinyGps fixed_floats
receiver = record {
  Parser = ℕ;
  encode = λ g c. c;
  report = λ g millis. record {
    satellites = some 8;
    hdop = some (tenths 12);
    date_valid = true;
    date_age = 100;
    year = 2026;
    month = 5;
    day = 17;
    time_valid = true;
    time_age = 50;
    hour = 12;
    minute = 30;
    second = 60;
    location_valid = true;
    location_age = 100;
    latitude = tenths 102;
    longitude = tenths 205;
    altitude_valid = true;
    altitude_age = 100;
    altitude_m = tenths 850;
    speed_valid = true;
    speed_age = 100;
    speed_kmh = tenths 300;
  };
}

abbrev silent : GpsNeo6m fixed_floats
silent = record {
  reading = record gps { utc_valid = false; valid = false };
  started = true;
  started_at_ms = 0;
  last_byte_ms = 0;
  last_warning_ms = 0;
}

utc_run : (update fixed_floats receiver 1000 1000 (36 ∷ []) silent 0).0.reading.utc_valid ≡ true
unfolding update read_bytes note_quality note_utc fresh_utc fresh_fix note_fix note_silence
utc_run = refl

update-IsDate_example :
    IsDate (broken_time (update fixed_floats receiver 1000 1000 (36 ∷ []) silent 0).0.reading)
update-IsDate_example =
    update-IsDate fixed_floats receiver 1000 1000 (36 ∷ []) silent 0 refl utc_run
