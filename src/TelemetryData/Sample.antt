-- ===== src/TelemetryData/Sample.antt =====
-- A snapshot of a device with all its sensors, for the tests, with fixed-point numbers for floats.
use multisensory_device.Base.{ℕ, true, false, []}
use multisensory_device.Base.Text.{codes}
use multisensory_device.Base.Int.{pos, negsuc}
use multisensory_device.Floats.Fixed.{fixed_floats}
use multisensory_device.AcousticTypes.{AcousticData, AcousticBandEnergy}
use multisensory_device.TelemetryData.{
  TelemetryData, Dht11Data, LightData, GpsData, AccelData, AxesData, BarometerData, Gy801Data,
  by_gps,
}

abbrev pub tenths : ℕ → ℕ
tenths n = fixed_floats.float.literal (pos n) 1

abbrev pub dht : Dht11Data fixed_floats
dht = record {
  temperature_c = tenths 235;
  humidity_percent = tenths 550;
  valid = true;
  updated_at_ms = 9000;
}

abbrev pub light : LightData fixed_floats
light = record { lux = tenths 4000; valid = true; updated_at_ms = 9500 }

abbrev pub gps : GpsData fixed_floats
gps = record {
  latitude = tenths 102;
  longitude = tenths 205;
  altitude_m = tenths 850;
  speed_kmh = tenths 300;
  satellites = 8;
  valid = true;
  stream_seen = true;
  chars_processed = 1000;
  updated_at_ms = 9800;
  hdop = tenths 12;
  utc_valid = true;
  utc_year = 2026;
  utc_month = 5;
  utc_day = 17;
  utc_hour = 12;
  utc_minute = 30;
  utc_second = 15;
  utc_updated_at_ms = 9800;
}

abbrev accel : AccelData fixed_floats
accel = record {
  x = tenths 1;
  y = tenths 2;
  z = tenths 98;
  valid = true;
  updated_at_ms = 9900;
  raw_x = tenths 1;
  raw_y = tenths 2;
  raw_z = tenths 98;
}

abbrev axes : AxesData fixed_floats
axes = record { x = tenths 1; y = tenths 2; z = tenths 3; valid = true; updated_at_ms = 9900 }

abbrev pub barometer : BarometerData fixed_floats
barometer = record {
  pressure_hpa = tenths 9980;
  temperature_c = tenths 240;
  altitude_m = tenths 850;
  valid = true;
  updated_at_ms = 9000;
  raw_pressure_hpa = tenths 9980;
  sea_level_pressure_hpa = tenths 10080;
  calibration_source = by_gps;
}

abbrev pub gy801 : Gy801Data fixed_floats
gy801 = record { accel = accel; gyro = axes; mag = axes; barometer = barometer; imu_valid = true }

abbrev bands : AcousticBandEnergy fixed_floats
bands = record {
  hz80_to250 = tenths 1;
  hz250_to800 = tenths 6;
  hz800_to2000 = tenths 1;
  hz2000_to4000 = tenths 1;
  hz4000_to8000 = tenths 1;
}

abbrev pub sound : AcousticData fixed_floats
sound = record {
  relative_level_dbfs = fixed_floats.float.literal (negsuc 19) 0;
  peak_dbfs = fixed_floats.float.literal (negsuc 9) 0;
  confidence = fixed_floats.float.literal (pos 90) 2;
  microphone_valid = true;
  analysis_valid = true;
  clipping = false;
  category = codes "horn";
  classifier_version = codes "heuristic-4";
  updated_at_ms = 9000;
  sample_rate_hz = 16000;
  window_duration_ms = 1000;
  clipping_ratio = tenths 0;
  crest_factor = tenths 30;
  zero_crossing_rate = tenths 1;
  spectral_centroid_hz = tenths 9000;
  spectral_flatness = tenths 1;
  spectral_rolloff_hz = tenths 20000;
  bands = bands;
}

abbrev pub snapshot : TelemetryData fixed_floats
snapshot = record {
  device_id = codes "bus-1";
  vehicle_id = codes "v-1";
  boot_id = 3;
  sequence = 9;
  sample_id = codes "bus-1:3:9";
  uptime_ms = 10000;
  time_valid = true;
  measured_at = codes "2026-05-17T12:30:15Z";
  replayed = false;
  simulated = false;
  dht = dht;
  gps = gps;
  gy801 = gy801;
  light = light;
  storage = record {
    initialized = true;
    mounted = true;
    last_write_ok = true;
    total_bytes = 1000000;
    used_bytes = 1000;
    free_bytes = 999000;
    last_write_ms = 9000;
    boot_session = 3;
    segment = 0;
  };
  cellular = record {
    modem_present = false;
    sim_ready = false;
    network_registered = false;
    gprs_connected = false;
    signal_quality = negsuc 0;
    signal_dbm = pos 0;
    last_error = 0;
    updated_at_ms = 0;
    modem_name = [];
    operator_name = [];
    local_ip = [];
  };
  wifi_connected = true;
  wifi_rssi_dbm = negsuc 59;
  mqtt_connected = true;
  offline = record {
    ready = true;
    queued = 1;
    replayed = 0;
    dropped = 0;
    oldest_age_seconds = 5;
    bytes = 100;
  };
  acoustic = sound;
}
