-- ===== src/AppController/Snapshot.antt =====
-- The snapshot of the device and its message: `buildSnapshot`, and what `publishTelemetry` builds of it.
pub mod Message
use multisensory_device.Base.{ℕ, Bool, true, false, Option, none, some, List, []}
use multisensory_device.Base.Int.{ℤ}
use multisensory_device.Floats.{Floats}
use multisensory_device.AcousticTypes.{AcousticData}
use multisensory_device.JsonWriter.{JsonWriter}
use multisensory_device.RuntimeStatus.{StorageStatus}
use multisensory_device.Sim800l.{CellularStatus}
use multisensory_device.Storage.SdCard.{SdCard}
use multisensory_device.SecureMqtt.{EspMqtt}
use multisensory_device.TelemetryData.{TelemetryData, Dht11Data, LightData, GpsData, Gy801Data}
use multisensory_device.TelemetryValidator.{validate}
use multisensory_device.TelemetryBuilder.{build_v3}
use multisensory_device.Config.{telemetry_payload_buffer_size}
use multisensory_device.AppController.{AppController}
use multisensory_device.AppController.Acoustic.{text_or_empty, is_there}

-- What the parts report that are not members of the modelled controller.
pub record Reports (f : Floats) : Type 0 where
  pub uptime_ms : ℕ
  pub dht : Dht11Data f
  pub gps : GpsData f
  pub gy801 : Gy801Data f
  pub light : LightData f
  pub storage : StorageStatus
  pub cellular : CellularStatus
  pub wifi_connected : Bool
  pub wifi_rssi_dbm : ℤ
  pub acoustic : AcousticData f

module _ (f : Floats) (sd : SdCard) (esp : EspMqtt) (vehicle_id device_id : List ℕ) where
  -- The snapshot with the sequence number, the sample id and the wall-clock text that the object and its
  -- buffers hold when it is read.
  unfoldable pub build_snapshot :
      ℕ → Reports f → ℕ → List ℕ → Option (List ℕ) → AppController sd esp → TelemetryData f
  build_snapshot now r sequence sample_id measured_at a =
      validate f
        record {
          device_id = device_id;
          vehicle_id = vehicle_id;
          boot_id = a.identity.boot_id;
          sequence = sequence;
          sample_id = sample_id;
          uptime_ms = r.uptime_ms;
          time_valid = is_there measured_at;
          measured_at = text_or_empty measured_at;
          replayed = false;
          simulated = false;
          dht = r.dht;
          gps = r.gps;
          gy801 = r.gy801;
          light = r.light;
          storage = r.storage;
          cellular = r.cellular;
          wifi_connected = r.wifi_connected;
          wifi_rssi_dbm = r.wifi_rssi_dbm;
          mqtt_connected = a.secure_mqtt.link.connected;
          offline = a.offline_queue.status;
          acoustic = r.acoustic;
        }
        now

  -- The message of a sample, for the sequence number and the sample id that it gets.
  unfoldable pub message :
      JsonWriter f
      → ℕ
      → Reports f
      → Option (List ℕ)
      → AppController sd esp
      → ℕ
      → List ℕ
      → Option (List ℕ)
  message w now r measured_at a sequence sample_id =
      build_v3 f w (build_snapshot now r sequence sample_id measured_at a)
        telemetry_payload_buffer_size
