-- ===== src/AppController/Acoustic/Delivery.antt =====
-- What becomes of an analysis.
use multisensory_device.Base.{
  ℕ, Option-cases, inl, inr, ◌≡◌, ◌≢◌, refl, true, false, not, ◌||◌, Option, none, some, List, [],
  ◌∷◌, ◌++◌, arith, ◌==◌, if◌then◌else◌, length, length-append, same_text, same_text_iff,
}
use multisensory_device.Base.Text.{codes}
use multisensory_device.Floats.{Floats}
use multisensory_device.AcousticTypes.{AcousticData, AcousticAlertStatus}
use multisensory_device.AcousticAlerts
use multisensory_device.JsonWriter.{JsonWriter, serialize_to, serialize_to-fits}
use multisensory_device.AcousticMessages.{
  valid_identifier, valid_base_context, valid_aggregate_context, expected_sample_id,
  aggregate_document, build_aggregate,
}
use multisensory_device.AcousticMessages.Context.{sample_text-length, valid_aggregate_context_iff}
use multisensory_device.DeviceIdentity.{next_sequence, format_sample_id, sample_text}
use multisensory_device.Storage.SdCard.{SdCard}
use multisensory_device.SecureMqtt.{EspMqtt}
use multisensory_device.Config.{telemetry_payload_buffer_size}
use multisensory_device.AppController.{AppController}
use multisensory_device.AppController.Acoustic.{
  AcousticController, AcousticMoment, text_or_empty, is_there, extended_id, context_of,
  hand_aggregate, send_event, send_aggregate, process_acoustic,
}
use multisensory_device.AppController.Acoustic.Handing.{
  next_sequence_positive, valid_identifier-short, handed, hand_aggregate_lem, with_event,
  send_event_lem,
}

stamp_present :
    (m : Option (List ℕ))
    → m ≢ some []
    → (not (is_there m) || not (length (text_or_empty m) == 0)) ≡ true
stamp_present none h = refl
stamp_present (some []) h = absurd (h refl)
stamp_present (some (c ∷ s)) h = ground arith

same_text_refl : (s : List ℕ) → same_text s s ≡ true
same_text_refl s = (same_text_iff s s).1 refl

module _ (f : Floats) (sd : SdCard) (esp : EspMqtt) (w : JsonWriter f)
    (vehicle_id device_id : List ℕ) (append_json_line : List ℕ → ℕ → sd.Fs → sd.Fs) where
  -- An analysis is processed once: a second look at it, at any later moment, changes nothing.
  pub process_acoustic_once :
      (t later : AcousticMoment) (sound : AcousticData f) (a : AcousticController f sd esp)
      → process_acoustic f sd esp w vehicle_id device_id append_json_line later sound
          (process_acoustic f sd esp w vehicle_id device_id append_json_line t sound a)
        ≡ process_acoustic f sd esp w vehicle_id device_id append_json_line t sound a
  unfolding process_acoustic
  process_acoustic_once t later sound a = ground arith

  context_accepted :
      (t : AcousticMoment) (boot_id sequence : ℕ)
      → valid_identifier device_id 64 ≡ true
      → valid_identifier vehicle_id 64 ≡ true
      → (boot_id == 0) ≡ false
      → (sequence == 0) ≡ false
      → (t.measured_at ≢ some [])
      → valid_aggregate_context (
          context_of f sd esp w vehicle_id device_id append_json_line t boot_id sequence
            (sample_text device_id boot_id sequence ++ codes ":acoustic"))
        ≡ true
  unfolding valid_base_context
  context_accepted t boot_id sequence hd hv hb hs hm =
      let context =
        context_of f sd esp w vehicle_id device_id append_json_line t boot_id sequence
          (sample_text device_id boot_id sequence ++ codes ":acoustic") in
      let base : valid_base_context context ≡ true =
        ground (arith, hd, hv, hb, hs, stamp_present t.measured_at hm) in
      let same = same_text_refl (expected_sample_id context) in
      ground (arith, valid_aggregate_context_iff context, base, same)

  aggregate_sent :
      (t : AcousticMoment) (sound : AcousticData f) (alert : AcousticAlertStatus f)
      (a : AppController sd esp)
      → valid_identifier device_id 64 ≡ true
      → valid_identifier vehicle_id 64 ≡ true
      → a.identity.valid ≡ true
      → (a.identity.boot_id == 0) ≡ false
      → t.measured_at ≢ some []
      → let (sequence, d) = next_sequence a.identity in
        let numbered = record a { identity = d } in
        let sample_id = sample_text device_id a.identity.boot_id sequence ++ codes ":acoustic" in
        let context =
          context_of f sd esp w vehicle_id device_id append_json_line t a.identity.boot_id sequence
            sample_id in
        send_aggregate f sd esp w vehicle_id device_id append_json_line t sound alert a
        ≡ elim (serialize_to w (aggregate_document f context sound) telemetry_payload_buffer_size) [
          | none ↦ numbered
          | some payload ↦
              let handed =
                hand_aggregate f sd esp w vehicle_id device_id append_json_line payload t.now_ms
                  numbered in
              if alert.triggered
              then send_event f sd esp w vehicle_id device_id append_json_line t sound alert handed
              else handed
        ]
  unfolding send_aggregate format_sample_id extended_id build_aggregate
  aggregate_sent t sound alert a hd hv valid hb hm =
      let (positive, boot, still) = next_sequence_positive a.identity valid in
      let sequence = (next_sequence a.identity).0 in
      let accepted = context_accepted t a.identity.boot_id sequence hd hv hb positive hm in
      let (longer, short) = sample_text-length device_id a.identity.boot_id sequence in
      let whole =
        length-append (sample_text device_id a.identity.boot_id sequence) (codes ":acoustic") in
      let id = valid_identifier-short device_id 64 hd in
      ground (arith, positive, boot, still, accepted, longer, short, whole, id)

  send_aggregate_lem :
      (t : AcousticMoment) (sound : AcousticData f) (alert : AcousticAlertStatus f)
      (a : AppController sd esp)
      → valid_identifier device_id 64 ≡ true
      → valid_identifier vehicle_id 64 ≡ true
      → a.identity.valid ≡ true
      → (a.identity.boot_id == 0) ≡ false
      → t.measured_at ≢ some []
      → let (sequence, d) = next_sequence a.identity in
        let numbered = record a { identity = d } in
        let sample_id = sample_text device_id a.identity.boot_id sequence ++ codes ":acoustic" in
        let context =
          context_of f sd esp w vehicle_id device_id append_json_line t a.identity.boot_id sequence
            sample_id in
        send_aggregate f sd esp w vehicle_id device_id append_json_line t sound alert a
        ≡ elim (serialize_to w (aggregate_document f context sound) telemetry_payload_buffer_size) [
          | none ↦ numbered
          | some payload ↦
              let sent =
                handed f sd esp w vehicle_id device_id append_json_line
                  a.secure_mqtt.topics.acoustic payload t.now_ms numbered in
              if alert.triggered
              then with_event f sd esp w vehicle_id device_id append_json_line t sound alert sent
              else sent
        ]
  send_aggregate_lem t sound alert a hd hv valid hb hm =
      let (positive, boot, still) = next_sequence_positive a.identity valid in
      let (sequence, d) = next_sequence a.identity in
      let numbered = record a { identity = d } in
      let sample_id = sample_text device_id a.identity.boot_id sequence ++ codes ":acoustic" in
      let context =
        context_of f sd esp w vehicle_id device_id append_json_line t a.identity.boot_id sequence
          sample_id in
      let document = aggregate_document f context sound in
      let whole = aggregate_sent t sound alert a hd hv valid hb hm in
      elim (Option-cases (serialize_to w document telemetry_payload_buffer_size)) [
        | inl e ↦ ground (arith, whole, e)
        | inr (payload, e) ↦
            let hand =
              hand_aggregate_lem f sd esp w vehicle_id device_id append_json_line payload t.now_ms
                numbered (serialize_to-fits w document telemetry_payload_buffer_size payload e) in
            let sent =
              handed f sd esp w vehicle_id device_id append_json_line a.secure_mqtt.topics.acoustic
                payload t.now_ms numbered in
            let event =
              send_event_lem f sd esp w vehicle_id device_id append_json_line t sound alert sent hd
                still in
            ground (arith, whole, e, hand, event)
      ]

  -- An analysis that is new, with valid ids, a valid identity, a wall-clock text that is not empty and no
  -- firmware upload: its aggregate is never refused. The sample takes the next sequence number, and its id is
  -- the one of the sample with ":acoustic". Unless its JSON does not fit the buffer, the message is appended
  -- to the log, and with a connection the library is given it on the acoustic topic. An alert that the
  -- evaluator triggers then takes a sequence number of its own, and its event goes the same way on the topic
  -- of the events if the event's builder accepts it and its JSON fits; without an aggregate there is no event.
  pub aggregate_handed :
      (t : AcousticMoment) (sound : AcousticData f) (c : AcousticController f sd esp)
      → valid_identifier device_id 64 ≡ true
      → valid_identifier vehicle_id 64 ≡ true
      → c.app.identity.valid ≡ true
      → (c.app.identity.boot_id == 0) ≡ false
      → t.measured_at ≢ some []
      → t.ota_in_progress ≡ false
      → sound.updated_at_ms ≢ 0
      → sound.updated_at_ms ≢ c.last_processed_ms
      → let a = c.app in
        let evaluated = AcousticAlerts.update f sound t.now_ms c.alerts in
        let (sequence, d) = next_sequence a.identity in
        let numbered = record a { identity = d } in
        let sample_id = sample_text device_id a.identity.boot_id sequence ++ codes ":acoustic" in
        let context =
          context_of f sd esp w vehicle_id device_id append_json_line t a.identity.boot_id sequence
            sample_id in
        let after : AppController sd esp =
          elim (serialize_to w (aggregate_document f context sound) telemetry_payload_buffer_size) [
            | none ↦ numbered
            | some payload ↦
                let sent =
                  handed f sd esp w vehicle_id device_id append_json_line
                    a.secure_mqtt.topics.acoustic payload t.now_ms numbered in
                if evaluated.status.triggered
                then with_event f sd esp w vehicle_id device_id append_json_line t sound
                    evaluated.status sent
                else sent
          ] in
        process_acoustic f sd esp w vehicle_id device_id append_json_line t sound c
        ≡ record c { app = after; alerts = evaluated; last_processed_ms = sound.updated_at_ms }
  unfolding process_acoustic
  aggregate_handed t sound c hd hv valid hb hm free new other =
      let evaluated = AcousticAlerts.update f sound t.now_ms c.alerts in
      let whole = send_aggregate_lem t sound evaluated.status c.app hd hv valid hb hm in
      ground (arith, valid, free, new, other, whole)
