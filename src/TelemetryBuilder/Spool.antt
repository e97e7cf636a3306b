-- ===== src/TelemetryBuilder/Spool.antt =====
-- A built message fits the spool.
use multisensory_device.Base.{ℕ, ◌≤◌, ◌<◌, ◌≡◌, true, false, some, List, arith}
use multisensory_device.Floats.{Floats}
use multisensory_device.JsonWriter.{JsonWriter, serialize_to, serialize_to-fits}
use multisensory_device.TelemetryData.{TelemetryData}
use multisensory_device.OfflineQueuePolicy.{record_id_mask}
use multisensory_device.Storage.OfflineQueue.{OfflineQueue}
use multisensory_device.Storage.OfflineQueue.Intake.{refuses}
use multisensory_device.Config.{telemetry_payload_buffer_size}
use multisensory_device.TelemetryBuilder.{build_v3, document_v3}

-- A message that is built into the controller's buffer is never refused by the spool for its
-- length: on a spool that is ready and has record ids left it is accepted for storing.
pub build_v3-refuses :
    (f : Floats) (w : JsonWriter f) (d : TelemetryData f) (q : OfflineQueue) (payload : List ℕ)
    → build_v3 f w d telemetry_payload_buffer_size ≡ some payload
    → q.ready ≡ true
    → 0 < q.next_record_id
    → q.next_record_id ≤ record_id_mask
    → refuses q payload ≡ false
unfolding build_v3
build_v3-refuses f w d q payload h r n m =
    let built : serialize_to w (document_v3 f d) 2048 ≡ some payload = ground (arith, h) in
    ground (arith, serialize_to-fits w (document_v3 f d) 2048 payload built, r, n, m)
