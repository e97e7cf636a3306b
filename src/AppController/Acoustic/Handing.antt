-- ===== src/AppController/Acoustic/Handing.antt =====
-- Where the messages about a sound go, and the event of an alert.
use multisensory_device.Base.{
  ℕ, ◌≤◌, ◌<◌, ◌≡◌, true, false, none, some, List, ◌∷◌, ◌++◌, arith, ltb, ◌==◌, if◌then◌else◌,
  length, Bool-cases, Option-cases, inl, inr,
}
use multisensory_device.Floats.{Floats}
use multisensory_device.AcousticTypes.{AcousticData, AcousticAlertStatus}
use multisensory_device.JsonWriter.{JsonWriter, serialize_to, serialize_to-fits}
use multisensory_device.AcousticMessages.{
  AcousticMessageContext, valid_identifier, event_document, build_event, accepts_event,
  valid_event_id,
}
use multisensory_device.AcousticMessages.Context.{sample_text-length}
use multisensory_device.DeviceIdentity.{
  DeviceIdentity, next_sequence, format_sample_id, sample_text,
}
use multisensory_device.Storage.SdCard.{SdCard}
use multisensory_device.SecureMqtt.{EspMqtt}
use multisensory_device.SecureMqtt.Publish
use multisensory_device.Config.{telemetry_payload_buffer_size}
use multisensory_device.AppController.{AppController}
use multisensory_device.AppController.Acoustic.{
  AcousticMoment, extended_id, context_of, hand_aggregate, hand_event, send_event,
}

pub next_sequence_positive :
    (d : DeviceIdentity)
    → d.valid ≡ true
    → (((next_sequence d).0 == 0) ≡ false)
      × ((next_sequence d).1.boot_id ≡ d.boot_id)
      × ((next_sequence d).1.valid ≡ true)
unfolding next_sequence
next_sequence_positive d v = ground (arith, v)

pub valid_identifier-short : (s : List ℕ) (n : ℕ) → valid_identifier s n ≡ true → length s ≤ n
unfolding valid_identifier
valid_identifier-short s n h = ground (arith, h)

module _ (f : Floats) (sd : SdCard) (esp : EspMqtt) (w : JsonWriter f)
    (vehicle_id device_id : List ℕ) (append_json_line : List ℕ → ℕ → sd.Fs → sd.Fs) where
  -- A message stands in the log, and the library has it with quality of service 1, not retained, if there is
  -- a connection.
  abbrev pub handed : List ℕ → List ℕ → ℕ → AppController sd esp → AppController sd esp
  handed topic payload now a = record a {
    card = append_json_line payload now a.card;
    client =
        if a.secure_mqtt.link.connected
        then (esp.enqueue a.client topic payload 1 false).1
        else a.client;
  }

  pub hand_aggregate_lem :
      (payload : List ℕ) (now : ℕ) (a : AppController sd esp)
      → (0 < length payload) × (length payload < telemetry_payload_buffer_size)
      → hand_aggregate f sd esp w vehicle_id device_id append_json_line payload now a
        ≡ handed a.secure_mqtt.topics.acoustic payload now a
  unfolding hand_aggregate Publish.publish_acoustic Publish.publish_to
  hand_aggregate_lem payload now a h = ground (arith, h)

  hand_event_lem :
      (payload : List ℕ) (now : ℕ) (a : AppController sd esp)
      → (0 < length payload) × (length payload < telemetry_payload_buffer_size)
      → hand_event f sd esp w vehicle_id device_id append_json_line payload now a
        ≡ handed a.secure_mqtt.topics.events payload now a
  unfolding hand_event Publish.publish_event Publish.publish_to
  hand_event_lem payload now a h = ground (arith, h)

  -- What becomes of the event of an alert: it takes the next sequence number, and its id is that of the sample
  -- with the event's type.
  abbrev pub with_event :
      AcousticMoment
      → AcousticData f
      → AcousticAlertStatus f
      → AppController sd esp
      → AppController sd esp
  with_event t sound alert a =
      let (sequence, d) = next_sequence a.identity in
      let numbered = record a { identity = d } in
      let base = sample_text device_id a.identity.boot_id sequence in
      let context =
        context_of f sd esp w vehicle_id device_id append_json_line t a.identity.boot_id sequence
          base in
      let event_id = base ++ (b':' ∷ alert.event_type) in
      if accepts_event f context sound alert event_id
      then elim (serialize_to w (event_document f context sound alert event_id)
          telemetry_payload_buffer_size) [
            | none ↦ numbered
            | some payload ↦ handed a.secure_mqtt.topics.events payload t.now_ms numbered
          ]
      else numbered

  accepted-short :
      (context : AcousticMessageContext) (sound : AcousticData f) (alert : AcousticAlertStatus f)
      (event_id : List ℕ)
      → accepts_event f context sound alert event_id ≡ true
      → ltb (length event_id) 176 ≡ true
  unfolding accepts_event valid_event_id
  accepted-short context sound alert event_id h = ground (arith, h)

  pub send_event_lem :
      (t : AcousticMoment) (sound : AcousticData f) (alert : AcousticAlertStatus f)
      (a : AppController sd esp)
      → valid_identifier device_id 64 ≡ true
      → a.identity.valid ≡ true
      → send_event f sd esp w vehicle_id device_id append_json_line t sound alert a
        ≡ with_event t sound alert a
  unfolding send_event format_sample_id extended_id build_event
  send_event_lem t sound alert a hd valid =
      let (positive, boot, still) = next_sequence_positive a.identity valid in
      let (sequence, d) = next_sequence a.identity in
      let base = sample_text device_id a.identity.boot_id sequence in
      let context =
        context_of f sd esp w vehicle_id device_id append_json_line t a.identity.boot_id sequence
          base in
      let event_id = base ++ (b':' ∷ alert.event_type) in
      let (longer, short) = sample_text-length device_id a.identity.boot_id sequence in
      let id = valid_identifier-short device_id 64 hd in
      let fits = accepted-short context sound alert event_id in
      let document = event_document f context sound alert event_id in
      let numbered = record a { identity = d } in
      elim (Bool-cases (accepts_event f context sound alert event_id)) [
        | inl y ↦ elim (Option-cases (serialize_to w document telemetry_payload_buffer_size)) [
          | inl e ↦ ground (arith, boot, still, short, id, fits y, y, e)
          | inr (payload, e) ↦
              let hand =
                hand_event_lem payload t.now_ms numbered
                  (serialize_to-fits w document telemetry_payload_buffer_size payload e) in
              ground (arith, boot, still, short, id, fits y, y, e, hand)
        ]
        | inr n ↦ ground (arith, boot, still, short, id, n)
      ]
