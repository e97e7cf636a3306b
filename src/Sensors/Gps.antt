-- ===== src/Sensors/Gps.antt =====
-- sensors/GPSNeo6M.h and .cpp.
use multisensory_device.Base.{
  ℕ, Bool, true, false, not, ◌&&◌, Option, none, some, List, [], ◌∷◌, ltb, leb, ◌==◌, if◌then◌else◌,
  add32, elapsed,
}
use multisensory_device.Config.{gps_fix_max_age_ms, gps_no_data_warning_ms}
use multisensory_device.Floats.{Floats}
use multisensory_device.TelemetryData.{GpsData}
use multisensory_device.Sensors.{is_over, warns}

-- What TinyGPSPlus reports at a moment; a value that is not there is `none`, and the ages are in milliseconds.
pub record Report (f : Floats) : Type 0 where
  pub satellites : Option ℕ
  pub hdop : Option f.Double
  pub date_valid : Bool
  pub date_age : ℕ
  pub year : ℕ
  pub month : ℕ
  pub day : ℕ
  pub time_valid : Bool
  pub time_age : ℕ
  pub hour : ℕ
  pub minute : ℕ
  pub second : ℕ
  pub location_valid : Bool
  pub location_age : ℕ
  pub latitude : f.Double
  pub longitude : f.Double
  pub altitude_valid : Bool
  pub altitude_age : ℕ
  pub altitude_m : f.Double
  pub speed_valid : Bool
  pub speed_age : ℕ
  pub speed_kmh : f.Double

pub record TinyGps (f : Floats) : Type 1 where
  pub Parser : Type 0
  pub encode : Parser → ℕ → Parser
  pub report : Parser → ℕ → Report f

pub record GpsNeo6m (f : Floats) : Type 0 where
  pub reading : GpsData f
  pub started : Bool
  pub started_at_ms : ℕ
  pub last_byte_ms : ℕ
  pub last_warning_ms : ℕ

module _ (f : Floats) where
  unfoldable pub begin : ℕ → GpsNeo6m f → GpsNeo6m f
  begin millis s = record s {
    started = true;
    started_at_ms = millis;
    reading = record s.reading { valid = false };
  }

  abbrev pub satellites_or : Option ℕ → ℕ → ℕ
  satellites_or none n = n
  satellites_or (some m) n = m

  abbrev pub hdop_or : Option f.Double → f.Float → f.Float
  hdop_or none x = x
  hdop_or (some y) x = f.to_float y

  -- The values that stay until the next valid one.
  unfoldable pub note_quality : Report f → GpsData f → GpsData f
  note_quality r d = record d {
    satellites = satellites_or r.satellites d.satellites;
    hdop = hdop_or r.hdop d.hdop;
  }

  unfoldable pub fresh_utc : Report f → Bool
  fresh_utc r =
      r.date_valid
      && r.time_valid
      && leb r.date_age gps_fix_max_age_ms
      && leb r.time_age gps_fix_max_age_ms
      && leb 2020 r.year
      && leb 1 r.month
      && leb r.month 12
      && leb 1 r.day
      && leb r.day 31
      && leb r.hour 23
      && leb r.minute 59
      && leb r.second 60

  unfoldable pub note_utc : ℕ → Report f → GpsData f → GpsData f
  note_utc now r d =
      let age = if ltb r.time_age r.date_age then r.date_age else r.time_age in
      if fresh_utc r
      then record d {
        utc_year = r.year;
        utc_month = r.month;
        utc_day = r.day;
        utc_hour = r.hour;
        utc_minute = r.minute;
        utc_second = if ltb 59 r.second then 59 else r.second;
        utc_updated_at_ms = elapsed now age;
        utc_valid = true;
      }
      else record d { utc_valid = false }

  unfoldable pub fresh_fix : Report f → Bool
  fresh_fix r =
      r.location_valid
      && r.altitude_valid
      && r.speed_valid
      && leb r.location_age gps_fix_max_age_ms
      && leb r.altitude_age gps_fix_max_age_ms
      && leb r.speed_age gps_fix_max_age_ms

  unfoldable pub note_fix : ℕ → Report f → GpsData f → GpsData f
  note_fix now r d =
      if fresh_fix r
      then record d {
        latitude = r.latitude;
        longitude = r.longitude;
        altitude_m = f.to_float r.altitude_m;
        speed_kmh = f.to_float r.speed_kmh;
        updated_at_ms = elapsed now r.location_age;
        valid = true;
      }
      else record d { valid = false }

  unfoldable pub note_silence : ℕ → GpsNeo6m f → GpsNeo6m f
  note_silence now s =
      let reference = if s.last_byte_ms == 0 then s.started_at_ms else s.last_byte_ms in
      if is_over gps_no_data_warning_ms now reference
        && warns gps_no_data_warning_ms now s.last_warning_ms
      then record s { last_warning_ms = now }
      else s

  module _ (tiny : TinyGps f) where
    unfoldable pub read_bytes : ℕ → List ℕ → GpsNeo6m f → tiny.Parser → GpsNeo6m f × tiny.Parser
    read_bytes now [] s g = (s, g)
    read_bytes now (c ∷ bytes) s g =
        read_bytes now bytes
          record s {
            last_byte_ms = now;
            reading = record s.reading {
              stream_seen = true;
              chars_processed = add32 s.reading.chars_processed 1;
            };
          }
          (tiny.encode g c)

    -- `bytes` are those that the serial port has in this call; the reports are of the clock `millis`.
    unfoldable pub update : ℕ → ℕ → List ℕ → GpsNeo6m f → tiny.Parser → GpsNeo6m f × tiny.Parser
    update now millis bytes s g =
        let (s1, g1) = read_bytes now bytes s g in
        let r = tiny.report g1 millis in
        let reading = note_fix now r (note_utc now r (note_quality r s1.reading)) in
        if not s.started then (s, g) else (note_silence now (record s1 { reading = reading }), g1)
