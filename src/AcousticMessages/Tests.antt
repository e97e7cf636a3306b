-- ===== src/AcousticMessages/Tests.antt =====
-- The theorem on the messages at a horn's alert.
use multisensory_device.Base.{◌≡◌, refl, true, false, same_text}
use multisensory_device.Base.Int.{pos}
use multisensory_device.Base.Text.{codes}
use multisensory_device.Floats.Fixed.{fixed_floats}
use multisensory_device.AcousticTypes.{AcousticAlertStatus}
use multisensory_device.AcousticClassifier.Categories.{is_listed}
use multisensory_device.JsonWriter.{AllFinite, only_if}
use multisensory_device.TelemetryBuilder.{in_range}
use multisensory_device.TelemetryData.Sample.{sound}
use multisensory_device.AcousticMessages.{
  AcousticMessageContext, aggregate_document, event_document, accepts_event, valid_base_context,
  valid_identifier, all_characters, valid_event_id, valid_alert, valid_analysis,
}
use multisensory_device.AcousticMessages.Finite.{messages-AllFinite}

abbrev context : AcousticMessageContext
context = record {
  device_id = codes "bus-1";
  vehicle_id = codes "v-1";
  boot_id = 3;
  sequence = 9;
  sample_id = codes "bus-1:3:9";
  uptime_ms = 10000;
  time_valid = true;
  measured_at = codes "2026-05-17T12:30:15Z";
  simulated = false;
}

abbrev alert : AcousticAlertStatus fixed_floats
alert = record {
  active = true;
  triggered = true;
  event_type = codes "acoustic_horn";
  severity = codes "high";
  confidence = fixed_floats.float.literal (pos 90) 2;
  duration_ms = 8000;
  updated_at_ms = 10000;
}

accepts_event_run :
    accepts_event fixed_floats context sound alert (codes "bus-1:3:9:acoustic_horn") ≡ true
unfolding accepts_event valid_base_context valid_identifier all_characters valid_event_id
    valid_alert valid_analysis in_range same_text is_listed
accepts_event_run = refl

messages-AllFinite_example :
    AllFinite (aggregate_document fixed_floats context sound)
    × AllFinite (
        only_if
          (accepts_event fixed_floats context sound alert (codes "bus-1:3:9:acoustic_horn"))
          (event_document fixed_floats context sound alert (codes "bus-1:3:9:acoustic_horn")))
messages-AllFinite_example =
    messages-AllFinite fixed_floats context sound alert (codes "bus-1:3:9:acoustic_horn")
