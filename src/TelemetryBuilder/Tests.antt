-- ===== src/TelemetryBuilder/Tests.antt =====
-- The theorem on the messages at a snapshot with all sensors.
use multisensory_device.Floats.Fixed.{fixed_floats}
use multisensory_device.JsonWriter.{AllFinite}
use multisensory_device.TelemetryData.Sample.{snapshot}
use multisensory_device.TelemetryBuilder.{document_v2, document_v3}
use multisensory_device.TelemetryBuilder.Finite.{documents-AllFinite}

documents-AllFinite_example :
    AllFinite (document_v2 fixed_floats snapshot) × AllFinite (document_v3 fixed_floats snapshot)
documents-AllFinite_example = documents-AllFinite fixed_floats snapshot
