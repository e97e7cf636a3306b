-- ===== src/TelemetryBuilder.antt =====
-- telemetry/TelemetryBuilder.h and .cpp: the messages of the schema versions 2 and 3.
pub mod Finite
pub mod Spool
mod Tests
use multisensory_device.Base.{
  ℕ, Bool, true, false, not, ◌&&◌, ◌||◌, Option, none, some, List, [], ◌∷◌, ◌++◌, leb, ◌==◌,
  if◌then◌else◌, length,
}
use multisensory_device.Base.Text.{codes}
use multisensory_device.Base.Int.{ℤ, pos, negsuc}
use multisensory_device.Floats.{Floats, Arithmetic, within}
use multisensory_device.AcousticTypes.{AcousticData}
use multisensory_device.AcousticClassifier.Categories.{known_acoustic_category}
use multisensory_device.JsonWriter.{
  Leaf, number, integer, real, wide, text, flag, Value, leaf, Document, JsonWriter, only_if,
  serialize_to,
}
use multisensory_device.TelemetryData.{
  TelemetryData, Dht11Data, LightData, GpsData, AccelData, AxesData, BarometerData,
}

abbrev pub telemetry_version : ℕ
telemetry_version = 2

abbrev pub vehiclesense_version : ℕ
vehiclesense_version = 3

-- 0 <= quality && quality <= 31
abbrev is_quality : ℤ → Bool
is_quality (pos q) = leb q 31
is_quality (negsuc q) = false

-- -127 <= rssi && rssi <= 0
abbrev is_rssi : ℤ → Bool
is_rssi (pos r) = r == 0
is_rssi (negsuc r) = leb r 126

module _ (f : Floats) where
  open f.float use {is_finite}

  abbrev pub number_of : List ℕ → ℕ → List ℕ × Value f
  number_of name n = (name, leaf (number n))

  abbrev pub text_of : List ℕ → List ℕ → List ℕ × Value f
  text_of name t = (name, leaf (text t))

  abbrev pub flag_of : List ℕ → Bool → List ℕ × Value f
  flag_of name b = (name, leaf (flag b))

  abbrev pub real_of : List ℕ → f.Float → List ℕ × Value f
  real_of name x = (name, leaf (real x))

  unfoldable pub in_range : f.Float → ℤ → ℤ → Bool
  in_range value minimum maximum = is_finite value && within f.float value minimum maximum

  unfoldable pub dht_valid : Dht11Data f → Bool
  dht_valid d = d.valid && is_finite d.temperature_c && is_finite d.humidity_percent

  unfoldable pub gps_valid : GpsData f → Bool
  gps_valid d =
      d.valid
      && f.double.is_finite d.latitude
      && f.double.is_finite d.longitude
      && is_finite d.altitude_m
      && is_finite d.speed_kmh

  unfoldable pub accel_valid : AccelData f → Bool
  accel_valid d = d.valid && is_finite d.x && is_finite d.y && is_finite d.z

  unfoldable pub axes_valid : AxesData f → Bool
  axes_valid d = d.valid && is_finite d.x && is_finite d.y && is_finite d.z

  unfoldable pub baro_valid : BarometerData f → Bool
  baro_valid d =
      d.valid
      && is_finite d.pressure_hpa
      && is_finite d.sea_level_pressure_hpa
      && is_finite d.temperature_c
      && is_finite d.altitude_m

  unfoldable pub light_valid : LightData f → Bool
  light_valid d = d.valid && is_finite d.lux

  unfoldable pub acoustic_valid : AcousticData f → Bool
  acoustic_valid d =
      d.microphone_valid
      && d.analysis_valid
      && in_range d.relative_level_dbfs (negsuc 159) (pos 0)
      && in_range d.peak_dbfs (negsuc 159) (pos 0)
      && in_range d.confidence (pos 0) (pos 1)
      && known_acoustic_category d.category
      && not (length d.classifier_version == 0)
      && leb (length d.classifier_version) 40

  -- The members of each sensor.
  unfoldable pub dht_members : Dht11Data f → Document f
  dht_members d =
      real_of (codes "temperature_c") d.temperature_c
      ∷ real_of (codes "humidity_percent") d.humidity_percent
      ∷ []

  unfoldable pub gps_members : GpsData f → Document f
  gps_members d =
      (codes "latitude", leaf (wide d.latitude))
      ∷ (codes "longitude", leaf (wide d.longitude))
      ∷ real_of (codes "altitude_m") d.altitude_m
      ∷ real_of (codes "speed_kmh") d.speed_kmh
      ∷ number_of (codes "satellites") d.satellites
      ∷ []

  unfoldable pub accel_members : AccelData f → Document f
  accel_members d =
      real_of (codes "accel_x") d.x
      ∷ real_of (codes "accel_y") d.y
      ∷ real_of (codes "accel_z") d.z
      ∷ []

  unfoldable pub gyro_members : AxesData f → Document f
  gyro_members d =
      real_of (codes "gyro_x") d.x
      ∷ real_of (codes "gyro_y") d.y
      ∷ real_of (codes "gyro_z") d.z
      ∷ []

  unfoldable pub mag_members : AxesData f → Document f
  mag_members d =
      real_of (codes "mag_x") d.x ∷ real_of (codes "mag_y") d.y ∷ real_of (codes "mag_z") d.z ∷ []

  unfoldable pub baro_members : BarometerData f → Document f
  baro_members d =
      real_of (codes "pressure_hpa") d.pressure_hpa
      ∷ real_of (codes "sea_level_pressure_hpa") d.sea_level_pressure_hpa
      ∷ real_of (codes "baro_temperature_c") d.temperature_c
      ∷ real_of (codes "baro_altitude_m") d.altitude_m
      ∷ []

  unfoldable pub light_members : LightData f → Document f
  light_members d = real_of (codes "light_lux") d.lux ∷ []

  unfoldable pub acoustic_members : AcousticData f → Document f
  acoustic_members d =
      real_of (codes "acoustic_relative_level_dbfs") d.relative_level_dbfs
      ∷ real_of (codes "acoustic_peak_dbfs") d.peak_dbfs
      ∷ text_of (codes "acoustic_category") d.category
      ∷ real_of (codes "acoustic_confidence") d.confidence
      ∷ flag_of (codes "acoustic_clipping") d.clipping
      ∷ text_of (codes "acoustic_classifier_version") d.classifier_version
      ∷ []

  -- The document of `build`.
  unfoldable pub head_v2 : TelemetryData f → Document f
  head_v2 d =
      number_of (codes "schema_version") telemetry_version
      ∷ text_of (codes "device_id") d.device_id
      ∷ number_of (codes "uptime_ms") d.uptime_ms
      ∷ flag_of (codes "dht_valid") d.dht.valid
      ∷ flag_of (codes "gps_valid") d.gps.valid
      ∷ flag_of (codes "accel_valid") d.gy801.accel.valid
      ∷ flag_of (codes "gyro_valid") d.gy801.gyro.valid
      ∷ flag_of (codes "mag_valid") d.gy801.mag.valid
      ∷ flag_of (codes "baro_valid") d.gy801.barometer.valid
      ∷ flag_of (codes "imu_valid") d.gy801.imu_valid
      ∷ flag_of (codes "bh1750_valid") d.light.valid
      ∷ flag_of (codes "sd_valid") d.storage.mounted
      ∷ flag_of (codes "sim_valid") (d.cellular.modem_present && d.cellular.sim_ready)
      ∷ flag_of (codes "gprs_connected") d.cellular.gprs_connected
      ∷ []

  unfoldable pub document_v2 : TelemetryData f → Document f
  document_v2 d =
      head_v2 d
      ++ (only_if (dht_valid d.dht) (dht_members d.dht)
          ++ (only_if (gps_valid d.gps) (gps_members d.gps)
              ++ (only_if (light_valid d.light) (light_members d.light)
                  ++ (only_if (is_quality d.cellular.signal_quality)
                        ((codes "gsm_csq", leaf (integer d.cellular.signal_quality)) ∷ [])
                      ++ (only_if (accel_valid d.gy801.accel) (accel_members d.gy801.accel)
                          ++ (only_if (axes_valid d.gy801.gyro) (gyro_members d.gy801.gyro)
                              ++ (only_if (axes_valid d.gy801.mag) (mag_members d.gy801.mag)
                                  ++ only_if (baro_valid d.gy801.barometer)
                                      (baro_members d.gy801.barometer))))))))

  unfoldable pub build : JsonWriter f → TelemetryData f → ℕ → Option (List ℕ)
  build w d output_size =
      if output_size == 0 || length d.device_id == 0
      then none
      else serialize_to w (document_v2 d) output_size

  abbrev time_valid : TelemetryData f → Bool
  time_valid d = d.time_valid && not (length d.measured_at == 0)

  abbrev gps_valid_v3 : GpsData f → Bool
  gps_valid_v3 d = gps_valid d && is_finite d.hdop

  -- The document of `buildV3`, in four parts.
  unfoldable pub identity_v3 : TelemetryData f → Document f
  identity_v3 d =
      (number_of (codes "schema_version") vehiclesense_version
        ∷ text_of (codes "message_type") (codes "telemetry")
        ∷ text_of (codes "device_id") d.device_id
        ∷ text_of (codes "vehicle_id") d.vehicle_id
        ∷ number_of (codes "boot_id") d.boot_id
        ∷ number_of (codes "sequence") d.sequence
        ∷ text_of (codes "sample_id") d.sample_id
        ∷ number_of (codes "uptime_ms") d.uptime_ms
        ∷ flag_of (codes "time_valid") (time_valid d)
        ∷ [])
      ++ (only_if (time_valid d) (text_of (codes "measured_at") d.measured_at ∷ [])
          ++ (flag_of (codes "replayed") d.replayed ∷ flag_of (codes "simulated") d.simulated ∷ []))

  unfoldable pub flags_v3 : TelemetryData f → Document f
  flags_v3 d =
      flag_of (codes "dht_valid") (dht_valid d.dht)
      ∷ flag_of (codes "gps_valid") (gps_valid_v3 d.gps)
      ∷ flag_of (codes "accel_valid") (accel_valid d.gy801.accel)
      ∷ flag_of (codes "gyro_valid") (axes_valid d.gy801.gyro)
      ∷ flag_of (codes "mag_valid") (axes_valid d.gy801.mag)
      ∷ flag_of (codes "baro_valid") (baro_valid d.gy801.barometer)
      ∷ flag_of (codes "imu_valid")
          (accel_valid d.gy801.accel && axes_valid d.gy801.gyro && axes_valid d.gy801.mag)
      ∷ flag_of (codes "bh1750_valid") (light_valid d.light)
      ∷ flag_of (codes "sd_valid") d.storage.mounted
      ∷ flag_of (codes "wifi_connected") d.wifi_connected
      ∷ flag_of (codes "mqtt_connected") d.mqtt_connected
      ∷ flag_of (codes "mic_valid") d.acoustic.microphone_valid
      ∷ flag_of (codes "acoustic_valid") (acoustic_valid d.acoustic)
      ∷ []

  unfoldable pub readings_v3 : TelemetryData f → Document f
  readings_v3 d =
      only_if (dht_valid d.dht) (dht_members d.dht)
      ++ (only_if (gps_valid_v3 d.gps)
            (gps_members d.gps ++ (real_of (codes "gps_hdop") d.gps.hdop ∷ []))
          ++ (only_if (accel_valid d.gy801.accel) (accel_members d.gy801.accel)
              ++ (only_if (axes_valid d.gy801.gyro) (gyro_members d.gy801.gyro)
                  ++ (only_if (axes_valid d.gy801.mag) (mag_members d.gy801.mag)
                      ++ (only_if (baro_valid d.gy801.barometer) (baro_members d.gy801.barometer)
                          ++ only_if (light_valid d.light) (light_members d.light))))))

  abbrev pub signal : TelemetryData f → Document f
  signal d =
      only_if (d.wifi_connected && is_rssi d.wifi_rssi_dbm)
        ((codes "wifi_rssi_dbm", leaf (integer d.wifi_rssi_dbm)) ∷ [])

  abbrev pub counters : TelemetryData f → Document f
  counters d =
      number_of (codes "offline_queued") d.offline.queued
      ∷ number_of (codes "offline_replayed") d.offline.replayed
      ∷ number_of (codes "offline_dropped") d.offline.dropped
      ∷ number_of (codes "offline_oldest_age_s") d.offline.oldest_age_seconds
      ∷ []

  unfoldable pub delivery_v3 : TelemetryData f → Document f
  delivery_v3 d =
      signal d ++ (counters d ++ only_if (acoustic_valid d.acoustic) (acoustic_members d.acoustic))

  unfoldable pub document_v3 : TelemetryData f → Document f
  document_v3 d = identity_v3 d ++ (flags_v3 d ++ (readings_v3 d ++ delivery_v3 d))

  -- What `buildV3` asks of the snapshot.
  unfoldable pub is_identified : TelemetryData f → Bool
  is_identified d = not (
      length d.device_id == 0
      || length d.vehicle_id == 0
      || length d.sample_id == 0
      || d.boot_id == 0
      || d.sequence == 0)

  unfoldable pub build_v3 : JsonWriter f → TelemetryData f → ℕ → Option (List ℕ)
  build_v3 w d output_size =
      if output_size == 0 || not (is_identified d)
      then none
      else serialize_to w (document_v3 d) output_size
