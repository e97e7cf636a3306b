-- ===== src/AppController.antt =====
-- app/AppController.h and .cpp with APP_MODE_VEHICLESENSE_WIFI: the way of a telemetry sample through the
-- spool and the MQTT client, and the answer to a command. The object's members that this takes
-- part in are kept with the states of the memory card and of the MQTT library.
pub mod Telemetry
pub mod Acoustic
pub mod Snapshot
pub mod Mqtt
pub mod Commands
pub mod Durable
pub mod Pacing
pub mod Replay
mod Tests
mod MessageTests
use multisensory_device.Base.{ℕ, Bool, bit_and, ◌-◌, Option, List}
use multisensory_device.Base.Int.{ℤ, pos, negsuc}
use multisensory_device.Storage.SdCard.{SdCard}
use multisensory_device.Storage.OfflineQueue.{OfflineQueue}
use multisensory_device.DeviceIdentity.{DeviceIdentity}
use multisensory_device.SecureMqtt.{EspMqtt, SecureMqtt, is_reconnecting}

-- system/RuntimeStatus.h
pub record MqttRuntimeStatus : Type 0 where
  pub configured : Bool
  pub connected : Bool
  pub reconnecting : Bool
  pub last_publish_ok : Bool
  pub client_state : ℕ
  pub last_publish_attempt_ms : ℕ
  pub last_publish_success_ms : ℕ
  pub last_publish_ack_ms : ℕ
  pub last_acknowledged_token : ℕ

pub record AppController (sd : SdCard) (esp : EspMqtt) : Type 0 where
  pub offline_queue : OfflineQueue
  pub secure_mqtt : SecureMqtt
  pub identity : DeviceIdentity
  pub mqtt_status : MqttRuntimeStatus
  pub last_replay_attempt_ms : ℕ
  pub card : sd.Fs
  pub client : esp.Client

-- `value & 0x7FFF` on a two's complement integer.
abbrev pub low_15_bits : ℤ → ℕ
low_15_bits (pos n) = bit_and n 0x7FFF
low_15_bits (negsuc n) = 0x7FFF - bit_and n 0x7FFF
