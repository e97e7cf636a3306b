-- ===== src/TelemetryData.antt =====
-- telemetry/TelemetryData.h: the snapshot of the device. A C string that is never null is its bytes.
pub mod Sample
use multisensory_device.Base.{ℕ, Bool, List}
use multisensory_device.Base.Int.{ℤ}
use multisensory_device.Floats.{Floats}
use multisensory_device.AcousticTypes.{AcousticData}
use multisensory_device.RuntimeStatus.{StorageStatus}
use multisensory_device.Sim800l.{CellularStatus}
use multisensory_device.Storage.OfflineQueue.{OfflineDeliveryStatus}

pub record Dht11Data (f : Floats) : Type 0 where
  pub temperature_c : f.Float
  pub humidity_percent : f.Float
  pub valid : Bool
  pub updated_at_ms : ℕ

pub record LightData (f : Floats) : Type 0 where
  pub lux : f.Float
  pub valid : Bool
  pub updated_at_ms : ℕ

pub record GpsData (f : Floats) : Type 0 where
  pub latitude : f.Double
  pub longitude : f.Double
  pub altitude_m : f.Float
  pub speed_kmh : f.Float
  pub satellites : ℕ
  pub valid : Bool
  pub stream_seen : Bool
  pub chars_processed : ℕ
  pub updated_at_ms : ℕ
  pub hdop : f.Float
  pub utc_valid : Bool
  pub utc_year : ℕ
  pub utc_month : ℕ
  pub utc_day : ℕ
  pub utc_hour : ℕ
  pub utc_minute : ℕ
  pub utc_second : ℕ
  pub utc_updated_at_ms : ℕ

pub record AccelData (f : Floats) : Type 0 where
  pub x : f.Float
  pub y : f.Float
  pub z : f.Float
  pub valid : Bool
  pub updated_at_ms : ℕ
  pub raw_x : f.Float
  pub raw_y : f.Float
  pub raw_z : f.Float

-- GyroData and MagData
pub record AxesData (f : Floats) : Type 0 where
  pub x : f.Float
  pub y : f.Float
  pub z : f.Float
  pub valid : Bool
  pub updated_at_ms : ℕ

pub data BarometerCalibrationSource : Type 0 where
  by_default known_altitude by_gps : BarometerCalibrationSource

pub record BarometerData (f : Floats) : Type 0 where
  pub pressure_hpa : f.Float
  pub temperature_c : f.Float
  pub altitude_m : f.Float
  pub valid : Bool
  pub updated_at_ms : ℕ
  pub raw_pressure_hpa : f.Float
  pub sea_level_pressure_hpa : f.Float
  pub calibration_source : BarometerCalibrationSource

pub record Gy801Data (f : Floats) : Type 0 where
  pub accel : AccelData f
  pub gyro : AxesData f
  pub mag : AxesData f
  pub barometer : BarometerData f
  pub imu_valid : Bool

pub record TelemetryData (f : Floats) : Type 0 where
  pub device_id : List ℕ
  pub vehicle_id : List ℕ
  pub boot_id : ℕ
  pub sequence : ℕ
  pub sample_id : List ℕ
  pub uptime_ms : ℕ
  pub time_valid : Bool
  pub measured_at : List ℕ
  pub replayed : Bool
  pub simulated : Bool
  pub dht : Dht11Data f
  pub gps : GpsData f
  pub gy801 : Gy801Data f
  pub light : LightData f
  pub storage : StorageStatus
  pub cellular : CellularStatus
  pub wifi_connected : Bool
  pub wifi_rssi_dbm : ℤ
  pub mqtt_connected : Bool
  pub offline : OfflineDeliveryStatus
  pub acoustic : AcousticData f
