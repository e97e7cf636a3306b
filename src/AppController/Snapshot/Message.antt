-- ===== src/AppController/Snapshot/Message.antt =====
-- The message of a sample is never refused for what the snapshot lacks.
use multisensory_device.Base.{
  ℕ, ◌≤◌, ◌<◌, ◌≡◌, true, false, Option, none, some, List, ◌==◌, arith, if◌then◌else◌, length,
}
use multisensory_device.Floats.{Floats}
use multisensory_device.JsonWriter.{JsonWriter, serialize_to}
use multisensory_device.Storage.SdCard.{SdCard}
use multisensory_device.SecureMqtt.{EspMqtt}
use multisensory_device.DeviceIdentity.{next_sequence, format_sample_id, sample_text}
use multisensory_device.AcousticMessages.Context.{sample_text-length}
use multisensory_device.TelemetryValidator.{validate}
use multisensory_device.TelemetryValidator.Stable.{validate_stable}
use multisensory_device.TelemetryBuilder.{document_v3, is_identified, build_v3}
use multisensory_device.Config.{telemetry_payload_buffer_size}
use multisensory_device.AppController.{AppController}
use multisensory_device.AppController.Acoustic.Handing.{next_sequence_positive}
use multisensory_device.AppController.Snapshot.{Reports, build_snapshot, message}
use multisensory_device.AppController.Telemetry.{Moment, deliver, publish_telemetry}

module _ (f : Floats) (sd : SdCard) (esp : EspMqtt) (w : JsonWriter f)
    (vehicle_id device_id : List ℕ) where
  snapshot-is_identified :
      (now sequence : ℕ) (r : Reports f) (measured_at : Option (List ℕ)) (a : AppController sd esp)
      → 0 < length device_id
      → 0 < length vehicle_id
      → (a.identity.boot_id == 0) ≡ false
      → (sequence == 0) ≡ false
      → is_identified f (
          build_snapshot f sd esp vehicle_id device_id now r sequence
            (sample_text device_id a.identity.boot_id sequence)
            measured_at
            a)
        ≡ true
  unfolding is_identified build_snapshot validate
  snapshot-is_identified now sequence r measured_at a hd hv hb hs =
      let (longer, _) = sample_text-length device_id a.identity.boot_id sequence in
      ground (arith, hd, hv, hb, hs, longer)

  snapshot_stable :
      (now sequence : ℕ) (r : Reports f) (sample_id : List ℕ) (measured_at : Option (List ℕ))
      (a : AppController sd esp)
      → let snapshot =
          build_snapshot f sd esp vehicle_id device_id now r sequence sample_id measured_at a in
        validate f snapshot now ≡ snapshot
  unfolding build_snapshot
  snapshot_stable now sequence r sample_id measured_at a = validate_stable f now _

  -- Whatever the sensors, the network and the clock report: with a valid identity, a device id of 1 to 64
  -- characters and a vehicle id, a tick of the telemetry takes the next sequence number, and delivers the
  -- snapshot's document unless its JSON does not fit the buffer or a firmware upload runs. The snapshot has
  -- been validated: validating it again at the time of the tick changes nothing.
  pub publish_telemetry_lem :
      (append_json_line : List ℕ → sd.Fs → sd.Fs) (now : ℕ) (t : Moment) (r : Reports f)
      (measured_at : Option (List ℕ)) (a : AppController sd esp)
      → 0 < length device_id
      → length device_id ≤ 64
      → 0 < length vehicle_id
      → a.identity.valid ≡ true
      → (a.identity.boot_id == 0) ≡ false
      → let (sequence, d) = next_sequence a.identity in
        let numbered = record a { identity = d } in
        let snapshot =
          build_snapshot f sd esp vehicle_id device_id now r sequence
            (sample_text device_id a.identity.boot_id sequence)
            measured_at
            a in
        (publish_telemetry sd esp device_id
            (message f sd esp vehicle_id device_id w now r measured_at a)
            append_json_line
            t
            a
          ≡ elim (serialize_to w (document_v3 f snapshot) telemetry_payload_buffer_size) [
            | none ↦ numbered
            | some payload ↦
                if t.ota_in_progress
                then numbered
                else deliver sd esp t payload sequence
                    (record numbered { card = append_json_line payload a.card })
          ])
        × (validate f snapshot now ≡ snapshot)
  unfolding publish_telemetry message build_v3 format_sample_id
  publish_telemetry_lem append_json_line now t r measured_at a hd short hv valid hb =
      let (positive, boot, still) = next_sequence_positive a.identity valid in
      let sequence = (next_sequence a.identity).0 in
      let identified = snapshot-is_identified now sequence r measured_at a hd hv hb positive in
      let (_, fits) = sample_text-length device_id a.identity.boot_id sequence in
      let valid_snapshot =
        snapshot_stable now sequence r (sample_text device_id a.identity.boot_id sequence)
          measured_at a in
      (ground (arith, valid, positive, boot, still, identified, fits, short), valid_snapshot)
