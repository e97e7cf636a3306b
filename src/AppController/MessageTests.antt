-- ===== src/AppController/MessageTests.antt =====
-- The theorems on the messages of a device with all its sensors, whose JSON always fits.
use multisensory_device.Base.{
  ℕ, ◌≡◌, same_text, [], refl, true, false, none, some, List, ◌∷◌, ◌++◌, arith, if◌then◌else◌,
}
use multisensory_device.Base.Decimal.{print_decimal}
use multisensory_device.Base.Text.{codes}
use multisensory_device.Base.Int.{negsuc}
use multisensory_device.Floats.Fixed.{fixed_floats}
use multisensory_device.JsonWriter.{JsonWriter, serialize_to}
use multisensory_device.AcousticAlerts
use multisensory_device.AcousticAlerts.{
  AcousticAlertEvaluator, keep_candidate, is_eligible, is_due, event_for_category, clear_candidate,
}
use multisensory_device.AcousticMessages.{aggregate_document, valid_identifier, all_characters}
use multisensory_device.Storage.SdCard.Memory.{Files, memory_card}
use multisensory_device.SecureMqtt.Tests.{broker}
use multisensory_device.DeviceIdentity.{next_sequence, sample_text}
use multisensory_device.TelemetryData.Sample.{snapshot, sound}
use multisensory_device.TelemetryBuilder.{document_v3}
use multisensory_device.TelemetryValidator.{validate}
use multisensory_device.Config.{telemetry_payload_buffer_size}
use multisensory_device.AppController.{AppController}
use multisensory_device.AppController.Tests.{device, moment}
use multisensory_device.AppController.Telemetry.{deliver, publish_telemetry}
use multisensory_device.AppController.Acoustic.{
  AcousticController, AcousticMoment, context_of, process_acoustic,
}
use multisensory_device.AppController.Acoustic.Delivery.{aggregate_handed}
use multisensory_device.AppController.Acoustic.Handing.{handed, with_event}
use multisensory_device.AppController.Snapshot.{Reports, build_snapshot, message}
use multisensory_device.AppController.Snapshot.Message.{publish_telemetry_lem}

abbrev writer : JsonWriter fixed_floats
writer = record { measure = λ d. 2; serialize = λ d size. codes "{}" }

abbrev bus : List ℕ
bus = codes "bus-1"

abbrev vehicle : List ℕ
vehicle = codes "v-1"

abbrev reports : Reports fixed_floats
reports = record {
  uptime_ms = snapshot.uptime_ms;
  dht = snapshot.dht;
  gps = snapshot.gps;
  gy801 = snapshot.gy801;
  light = snapshot.light;
  storage = snapshot.storage;
  cellular = snapshot.cellular;
  wifi_connected = true;
  wifi_rssi_dbm = negsuc 59;
  acoustic = sound;
}

publish_telemetry_lem_example :
    let (sequence, d) = next_sequence device.identity in
    let numbered = record device { identity = d } in
    let taken =
      build_snapshot fixed_floats memory_card broker vehicle bus 10000 reports sequence
        (sample_text bus device.identity.boot_id sequence)
        none
        device in
    (publish_telemetry memory_card broker bus
        (message fixed_floats memory_card broker vehicle bus writer 10000 reports none device)
        (λ line fs. fs)
        moment
        device
      ≡ elim (serialize_to writer (document_v3 fixed_floats taken) telemetry_payload_buffer_size) [
        | none ↦ numbered
        | some payload ↦
            if moment.ota_in_progress
            then numbered
            else deliver memory_card broker moment payload sequence
                (record numbered { card = device.card })
      ])
    × (validate fixed_floats taken 10000 ≡ taken)
publish_telemetry_lem_example =
    publish_telemetry_lem fixed_floats memory_card broker writer vehicle bus (λ line fs. fs) 10000
      moment reports none device (omega arith) (omega arith) (omega arith) refl refl

abbrev heard_at : AcousticMoment
heard_at = record { now_ms = 10000; uptime_ms = 10000; measured_at = none; ota_in_progress = false }

-- A horn has been heard for nine seconds.
abbrev listening : AcousticController fixed_floats memory_card broker
listening = record {
  app = device;
  alerts = record {
    status = record {
      active = false;
      triggered = false;
      event_type = [];
      severity = codes "info";
      confidence = 0;
      duration_ms = 0;
      updated_at_ms = 0;
    };
    candidate_active = true;
    candidate_type = codes "acoustic_horn";
    candidate_started_ms = 1000;
    last_event_ms = 0;
  };
  last_processed_ms = 1;
}

abbrev evaluated : AcousticAlertEvaluator fixed_floats
evaluated = AcousticAlerts.update fixed_floats sound heard_at.now_ms listening.alerts

evaluated_run : evaluated.status.triggered ≡ true
unfolding AcousticAlerts.update keep_candidate is_eligible is_due event_for_category clear_candidate
    same_text
evaluated_run = refl

bus_run : valid_identifier bus 64 ≡ true
unfolding valid_identifier all_characters
bus_run = refl

vehicle_run : valid_identifier vehicle 64 ≡ true
unfolding valid_identifier all_characters
vehicle_run = refl

-- A log that keeps each line as a file of its own.
abbrev keep_line : List ℕ → ℕ → Files → Files
keep_line line now fs = (print_decimal 10 now, line) ∷ fs

aggregate_handed_example :
    let (sequence, d) = next_sequence device.identity in
    let numbered = record device { identity = d } in
    let sample_id = sample_text bus device.identity.boot_id sequence ++ codes ":acoustic" in
    let context =
      context_of fixed_floats memory_card broker writer vehicle bus keep_line heard_at
        device.identity.boot_id sequence sample_id in
    let after : AppController memory_card broker =
      elim (serialize_to writer
        (aggregate_document fixed_floats context sound)
        telemetry_payload_buffer_size) [
          | none ↦ numbered
          | some payload ↦
              let sent =
                handed fixed_floats memory_card broker writer vehicle bus keep_line
                  device.secure_mqtt.topics.acoustic payload heard_at.now_ms numbered in
              if evaluated.status.triggered
              then with_event fixed_floats memory_card broker writer vehicle bus keep_line heard_at
                  sound evaluated.status sent
              else sent
        ] in
    process_acoustic fixed_floats memory_card broker writer vehicle bus keep_line heard_at sound
      listening
    ≡ record listening { app = after; alerts = evaluated; last_processed_ms = sound.updated_at_ms }
aggregate_handed_example =
    aggregate_handed fixed_floats memory_card broker writer vehicle bus keep_line heard_at sound
      listening bus_run vehicle_run refl refl (λ e. ground arith) refl (omega arith) (omega arith)
