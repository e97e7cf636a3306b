-- ===== src/AppController/Telemetry.antt =====
-- A new sample: `publishTelemetry`.
use multisensory_device.Base.{
  ℕ, Bool, true, false, not, ◌||◌, Option, none, some, List, if◌then◌else◌,
}
use multisensory_device.Storage.SdCard.{SdCard}
use multisensory_device.Storage.OfflineQueue.{has_pending}
use multisensory_device.Storage.OfflineQueue.Intake.{enqueue}
use multisensory_device.DeviceIdentity.{next_sequence, format_sample_id}
use multisensory_device.OfflineQueuePolicy.{live_token}
use multisensory_device.SecureMqtt.{EspMqtt, SecureMqtt, has_pending_telemetry}
use multisensory_device.SecureMqtt.Publish
use multisensory_device.AppController.{AppController}

-- The moment of a call: `millis()` at its start and when the message has been handed over, the wall clock,
-- and whether a firmware upload runs.
pub record Moment : Type 0 where
  pub now_ms : ℕ
  pub sent_ms : ℕ
  pub epoch_seconds : ℕ
  pub ota_in_progress : Bool

module _ (sd : SdCard) (esp : EspMqtt) where
  abbrev publish_attempted : ℕ → AppController sd esp → AppController sd esp
  publish_attempted now a = record a {
    mqtt_status = record (a.mqtt_status) { last_publish_attempt_ms = now };
  }

  -- The client's answer to a publication; a taken one awaits its PUBACK.
  abbrev pub sent_live :
      Bool × SecureMqtt × esp.Client → AppController sd esp → AppController sd esp
  sent_live (false, m, c) a = record a { secure_mqtt = m; client = c }
  sent_live (true, m, c) a = record a {
    secure_mqtt = m;
    client = c;
    mqtt_status = record (a.mqtt_status) { last_publish_ok = false };
  }

  unfoldable pub try_live : Moment → List ℕ → ℕ → AppController sd esp → AppController sd esp
  try_live t payload sequence a =
      let token = live_token sequence in
      let result = Publish.publish_telemetry esp payload token t.sent_ms a.secure_mqtt a.client in
      if not a.secure_mqtt.link.connected
      then a
      else sent_live result (publish_attempted t.now_ms a)

  abbrev pub is_deferred : AppController sd esp → Bool
  is_deferred a =
      not a.secure_mqtt.link.connected
      || has_pending_telemetry a.secure_mqtt.slot
      || has_pending a.offline_queue

  -- The sample goes to the spool, or where that fails straight to the client.
  unfoldable pub deliver : Moment → List ℕ → ℕ → AppController sd esp → AppController sd esp
  deliver t payload sequence a =
      let deferred = is_deferred a in
      let (kept, q, fs) =
        enqueue sd payload t.now_ms t.epoch_seconds deferred a.offline_queue a.card in
      let stored = record a { offline_queue = q; card = fs } in
      if not a.offline_queue.ready
      then try_live t payload sequence a
      else if kept
      then stored
      else try_live t payload sequence stored

  -- `build` is the snapshot of the sensors and its JSON text, for a sequence number and a sample id;
  -- `append_json_line` is the log's effect on the card, whose result is only reported.
  module _ (device_id : List ℕ) (build : ℕ → List ℕ → Option (List ℕ))
      (append_json_line : List ℕ → sd.Fs → sd.Fs) where
    unfoldable pub publish_telemetry : Moment → AppController sd esp → AppController sd esp
    publish_telemetry t a =
        let (sequence, d) = next_sequence a.identity in
        let numbered = record a { identity = d } in
        if not a.identity.valid then a else elim (format_sample_id device_id d sequence 128) [
          | none ↦ numbered
          | some sample_id ↦ elim (build sequence sample_id) [
            | none ↦ numbered
            | some payload ↦
                if t.ota_in_progress
                then numbered
                else deliver t payload sequence
                    (record numbered { card = append_json_line payload a.card })
          ]
        ]
