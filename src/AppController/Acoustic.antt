-- ===== src/AppController/Acoustic.antt =====
-- A new analysis of the sound: `processAcoustic`.
pub mod Delivery
pub mod Handing
use multisensory_device.Base.{
  ℕ, Bool, true, false, not, ◌||◌, Option, none, some, List, [], ◌∷◌, ◌++◌, ltb, ◌==◌,
  if◌then◌else◌, length,
}
use multisensory_device.Base.Text.{codes}
use multisensory_device.Floats.{Floats}
use multisensory_device.AcousticTypes.{AcousticData, AcousticAlertStatus}
use multisensory_device.JsonWriter.{JsonWriter}
use multisensory_device.AcousticAlerts
use multisensory_device.AcousticAlerts.{AcousticAlertEvaluator}
use multisensory_device.AcousticMessages.{AcousticMessageContext, build_aggregate, build_event}
use multisensory_device.DeviceIdentity.{next_sequence, format_sample_id}
use multisensory_device.Storage.SdCard.{SdCard}
use multisensory_device.SecureMqtt.{EspMqtt}
use multisensory_device.SecureMqtt.Publish
use multisensory_device.Config.{telemetry_payload_buffer_size}
use multisensory_device.AppController.{AppController}

-- The members that only this takes part in, beside the others.
pub record AcousticController (f : Floats) (sd : SdCard) (esp : EspMqtt) : Type 0 where
  pub app : AppController sd esp
  pub alerts : AcousticAlertEvaluator f
  pub last_processed_ms : ℕ

-- The moment of a call: `millis()`, the time since the start, the wall clock's text if the clock is valid, and
-- whether a firmware upload runs.
pub record AcousticMoment : Type 0 where
  pub now_ms : ℕ
  pub uptime_ms : ℕ
  pub measured_at : Option (List ℕ)
  pub ota_in_progress : Bool

abbrev pub text_or_empty : Option (List ℕ) → List ℕ
text_or_empty none = []
text_or_empty (some text) = text

abbrev pub is_there : Option (List ℕ) → Bool
is_there none = false
is_there (some text) = true

-- snprintf("%s:%s") into a buffer
unfoldable pub extended_id : List ℕ → List ℕ → ℕ → Option (List ℕ)
extended_id base suffix size =
    let text = base ++ (b':' ∷ suffix) in if ltb (length text) size then some text else none

-- `vehicle_id` and `device_id` are the configured ones; `append_json_line` is the log's effect on the card at
-- a time, whose result is only reported.
module _ (f : Floats) (sd : SdCard) (esp : EspMqtt) (w : JsonWriter f)
    (vehicle_id device_id : List ℕ) (append_json_line : List ℕ → ℕ → sd.Fs → sd.Fs) where
  abbrev pub context_of : AcousticMoment → ℕ → ℕ → List ℕ → AcousticMessageContext
  context_of t boot_id sequence sample_id = record {
    device_id = device_id;
    vehicle_id = vehicle_id;
    boot_id = boot_id;
    sequence = sequence;
    sample_id = sample_id;
    uptime_ms = t.uptime_ms;
    time_valid = is_there t.measured_at;
    measured_at = text_or_empty t.measured_at;
    simulated = false;
  }

  -- A message goes to the log, and to the client if there is a connection.
  unfoldable pub hand_aggregate : List ℕ → ℕ → AppController sd esp → AppController sd esp
  hand_aggregate payload now a =
      let (sent, client1) = Publish.publish_acoustic esp payload a.secure_mqtt a.client in
      let archived = record a { card = append_json_line payload now a.card } in
      if a.secure_mqtt.link.connected then record archived { client = client1 } else archived

  unfoldable pub hand_event : List ℕ → ℕ → AppController sd esp → AppController sd esp
  hand_event payload now a =
      let (sent, client1) = Publish.publish_event esp payload a.secure_mqtt a.client in
      let archived = record a { card = append_json_line payload now a.card } in
      if a.secure_mqtt.link.connected then record archived { client = client1 } else archived

  -- The part of `processAcoustic` after the aggregate. The context is the aggregate's but for the sequence
  -- number and the sample id.
  unfoldable pub send_event :
      AcousticMoment
      → AcousticData f
      → AcousticAlertStatus f
      → AppController sd esp
      → AppController sd esp
  send_event t sound alert a =
      let (sequence, d) = next_sequence a.identity in
      let numbered = record a { identity = d } in
      elim (format_sample_id device_id d sequence 144) [
        | none ↦ numbered
        | some base ↦ elim (extended_id base alert.event_type 176) [
          | none ↦ numbered
          | some event_id ↦
              elim (build_event f w (context_of t d.boot_id sequence base) sound alert event_id
                telemetry_payload_buffer_size) [
                  | none ↦ numbered
                  | some payload ↦ hand_event payload t.now_ms numbered
                ]
        ]
      ]

  unfoldable pub send_aggregate :
      AcousticMoment
      → AcousticData f
      → AcousticAlertStatus f
      → AppController sd esp
      → AppController sd esp
  send_aggregate t sound alert a =
      let (sequence, d) = next_sequence a.identity in
      let numbered = record a { identity = d } in
      elim (format_sample_id device_id d sequence 144) [
        | none ↦ numbered
        | some base ↦ elim (extended_id base (codes "acoustic") 176) [
          | none ↦ numbered
          | some sample_id ↦
              elim (build_aggregate f w (context_of t d.boot_id sequence sample_id) sound
                telemetry_payload_buffer_size) [
                  | none ↦ numbered
                  | some payload ↦
                      let handed = hand_aggregate payload t.now_ms numbered in
                      if not alert.triggered then handed else send_event t sound alert handed
                ]
        ]
      ]

  unfoldable pub process_acoustic :
      AcousticMoment → AcousticData f → AcousticController f sd esp → AcousticController f sd esp
  process_acoustic t sound a =
      let alerts1 = AcousticAlerts.update f sound t.now_ms a.alerts in
      let noted = record a { last_processed_ms = sound.updated_at_ms; alerts = alerts1 } in
      if sound.updated_at_ms == 0 || sound.updated_at_ms == a.last_processed_ms
      then a
      else if not a.app.identity.valid || t.ota_in_progress
      then noted
      else record noted { app = send_aggregate t sound alerts1.status a.app }
