-- ===== src/SecureMqtt/Setup/Tests.antt =====
-- The theorem on the set-up at the settings of one device.
use multisensory_device.Base.{ℕ, ◌≡◌, ◌&&◌, refl, false, Option, none, some, arith}
use multisensory_device.Base.Text.{codes}
use multisensory_device.MqttTopics.{is_valid_id, build}
use multisensory_device.SecureMqtt.{SecureMqtt}
use multisensory_device.SecureMqtt.Tests.{broker, online}
use multisensory_device.SecureMqtt.Setup.{
  Settings, MqttConfig, is_there, has_credentials, mqtt_config, begin,
}
use multisensory_device.SecureMqtt.Setup.Identity.{begin_lem}

abbrev settings : Settings
settings = record {
  host = codes "broker.example";
  port = 8883;
  username = codes "u";
  password = codes "p";
  vehicle_id = codes "v-1";
  device_id = codes "bus-1";
  firmware_version = codes "0.2.0";
  root_certificate = codes "pem";
  chip_id = 305419896;
}

abbrev made : MqttConfig → Option ℕ
made c = some 0

abbrev blank : SecureMqtt
blank = record online { link = record (online.link) { configured = false } }

begin_lem_example :
    let (ok, m', client') = begin broker made settings 7 blank none in
    (ok ≡ (
      has_credentials settings
      && is_valid_id (codes "v-1")
      && is_valid_id (codes "bus-1")
      && is_there broker made
          (made (mqtt_config settings 7 (build (codes "v-1") (codes "bus-1") blank.topics)))))
    × (m'.link.configured ≡ ok)
begin_lem_example = begin_lem broker made settings 7 blank none (omega arith) refl
