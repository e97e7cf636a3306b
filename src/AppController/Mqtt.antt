-- ===== src/AppController/Mqtt.antt =====
-- The turn of the main loop for MQTT: `processSecureMqtt`.
use multisensory_device.Base.{
  ℕ, Bool, true, not, ◌&&◌, Option, none, some, List, leb, if◌then◌else◌, elapsed,
}
use multisensory_device.Config.{
  telemetry_payload_buffer_size, offline_queue_replay_interval_ms, mqtt_command_buffer_size,
}
use multisensory_device.Storage.SdCard.{SdCard}
use multisensory_device.Storage.OfflineQueue.{OfflineQueue, Peeked, has_pending}
use multisensory_device.Storage.OfflineQueue.Delivery.{peek, mark_attempted, acknowledge}
use multisensory_device.OfflineQueuePolicy.{replay_token, is_replay_token, record_id_from_token}
use multisensory_device.SecureMqtt.{
  EspMqtt, has_pending_telemetry, take_telemetry_ack, is_reconnecting,
}
use multisensory_device.SecureMqtt.Publish
use multisensory_device.SecureMqtt.Events.{take_command}
use multisensory_device.AppController.{AppController, low_15_bits}
use multisensory_device.AppController.Telemetry.{sent_live}
use multisensory_device.AppController.Commands.{Json, Names, Stamp, answer}

module _ (sd : SdCard) (esp : EspMqtt) where
  unfoldable pub mirror_status : AppController sd esp → AppController sd esp
  mirror_status a = record a {
    mqtt_status = record (a.mqtt_status) {
      configured = a.secure_mqtt.link.configured;
      connected = a.secure_mqtt.link.connected;
      reconnecting = is_reconnecting a.secure_mqtt.link;
      client_state = low_15_bits a.secure_mqtt.link.last_error;
    };
  }

  abbrev acknowledged_at : ℕ → ℕ → AppController sd esp → AppController sd esp
  acknowledged_at token at a = record a {
    mqtt_status = record (a.mqtt_status) {
      last_publish_ok = true;
      last_publish_success_ms = at;
      last_publish_ack_ms = at;
      last_acknowledged_token = token;
    };
  }

  unfoldable pub forget_record : ℕ → AppController sd esp → AppController sd esp
  forget_record token a =
      let (_, q, fs) = acknowledge sd (record_id_from_token token) a.offline_queue a.card in
      if is_replay_token token then record a { offline_queue = q; card = fs } else a

  -- After `takeTelemetryAck`.
  abbrev handle_ack : Option (ℕ × ℕ) → AppController sd esp → AppController sd esp
  handle_ack none a = a
  handle_ack (some (token, at)) a = forget_record token (acknowledged_at token at a)

  unfoldable pub process_ack : AppController sd esp → AppController sd esp
  process_ack a =
      let (ack, s) = take_telemetry_ack a.secure_mqtt.slot in
      handle_ack ack (record a { secure_mqtt = record (a.secure_mqtt) { slot = s } })

  -- The record that was found is marked on the card, and only then handed to the client.
  unfoldable pub send_record : ℕ → ℕ → Peeked → AppController sd esp → AppController sd esp
  send_record now sent_ms found a =
      let (marked, fs) = mark_attempted sd found.record_id found.replayed a.offline_queue a.card in
      let attempted = record a {
        card = fs;
        mqtt_status = record (a.mqtt_status) { last_publish_attempt_ms = now };
      } in
      let token = replay_token found.record_id in
      let result =
        Publish.publish_telemetry esp found.payload token sent_ms a.secure_mqtt a.client in
      if marked then sent_live sd esp result attempted else attempted

  abbrev send_peeked :
      ℕ → ℕ → Option Peeked × OfflineQueue × sd.Fs → AppController sd esp → AppController sd esp
  send_peeked now sent_ms (none, q, fs) a = record a { offline_queue = q; card = fs }
  send_peeked now sent_ms (some found, q, fs) a =
      send_record now sent_ms found (record a { offline_queue = q; card = fs })

  abbrev pub is_replay_due : ℕ → AppController sd esp → Bool
  is_replay_due now a =
      a.secure_mqtt.link.connected
      && not (has_pending_telemetry a.secure_mqtt.slot)
      && has_pending a.offline_queue
      && leb offline_queue_replay_interval_ms (elapsed now a.last_replay_attempt_ms)

  unfoldable pub process_replay : ℕ → ℕ → AppController sd esp → AppController sd esp
  process_replay now sent_ms a =
      let due = record a { last_replay_attempt_ms = now } in
      if is_replay_due now a
      then send_peeked now sent_ms (peek sd telemetry_payload_buffer_size a.offline_queue a.card)
          due
      else a

  abbrev answer_taken :
      Json → Names → Stamp → Option (List ℕ) → AppController sd esp → AppController sd esp
  answer_taken json names stamp none a = a
  answer_taken json names stamp (some text) a = record a {
    client = answer esp json names stamp text a.secure_mqtt a.client;
  }

  unfoldable pub process_command :
      Json → Names → Stamp → AppController sd esp → AppController sd esp
  process_command json names stamp a =
      let (command, b) = take_command mqtt_command_buffer_size a.secure_mqtt.inbox in
      answer_taken json names stamp command
        (record a { secure_mqtt = record (a.secure_mqtt) { inbox = b } })

  unfoldable pub process_secure_mqtt :
      Json → Names → Stamp → ℕ → ℕ → AppController sd esp → AppController sd esp
  process_secure_mqtt json names stamp now sent_ms a =
      let replayed = process_replay now sent_ms (process_ack (mirror_status a)) in
      process_command json names stamp replayed
