-- ===== src/Storage/OfflineQueue/Delivery.antt =====
-- Records go out: `peek`, `markAttempted` and `acknowledge`.
use multisensory_device.Base.{
  ℕ, Bool, true, false, not, ◌||◌, Option, none, some, List, bit_and, bit_or, ◌==◌, if◌then◌else◌,
  length, take, drop, add32,
}
use multisensory_device.OfflineQueuePolicy.{should_mark_replayed, mark_payload_replayed}
use multisensory_device.Storage.SdCard.{SdCard, OpenFile}
use multisensory_device.Storage.OfflineRecord.{
  QueueRecordHeader, header_size, record_magic, record_version, flag_deferred,
  flag_last_publish_replayed, encode, decode, checksum_of, record_path,
}
use multisensory_device.Storage.OfflineQueue.{
  OfflineQueue, overflows_output, Peeked, has_flag, read_header, remove_oldest,
}

-- The checks of `peek` on the header of the oldest record.
unfoldable pub rejects_header : OfflineQueue → ℕ → QueueRecordHeader → Bool
rejects_header q output_size h =
    not (h.magic == record_magic)
    || not (h.version == record_version)
    || not (h.record_id == q.oldest_record_id)
    || h.payload_length == 0
    || overflows_output h.payload_length output_size

-- The payload as it is on the card, if it is whole.
unfoldable pub read_payload : OpenFile → Option (List ℕ)
read_payload f =
    let h = decode f.bytes in
    let payload = take h.payload_length (drop header_size f.bytes) in
    if not (length payload == h.payload_length) || not (checksum_of payload == h.checksum)
    then none
    else some payload

-- The payload as it is sent, and whether it says that it is a replay.
unfoldable pub outgoing : OfflineQueue → QueueRecordHeader → List ℕ → Option Peeked
outgoing q h payload =
    let replay =
      should_mark_replayed (has_flag h flag_deferred) h.attempts h.boot_id q.current_boot_id in
    if replay
    then elim (mark_payload_replayed payload) [
      | none ↦ none
      | some marked ↦ some (record { payload = marked; record_id = h.record_id; replayed = true })
    ]
    else some (record { payload = payload; record_id = h.record_id; replayed = false })

unfoldable pub peek_file : ℕ → OfflineQueue → Option OpenFile → Option Peeked
peek_file output_size q none = none
peek_file output_size q (some f) =
    if not (length (take header_size f.bytes) == header_size)
      || rejects_header q output_size (decode f.bytes)
    then none
    else elim (read_payload f) [ none ↦ none | some payload ↦ outgoing q (decode f.bytes) payload ]

abbrev attempted : Bool → QueueRecordHeader → QueueRecordHeader
attempted replayed h = record h {
  attempts = add32 h.attempts 1;
  flags = if replayed then bit_or h.flags flag_last_publish_replayed else bit_and h.flags 0xFFFD;
}

module _ (sd : SdCard) where
  open sd use {Fs, open_read, open_update, seek_start, overwrite}

  -- A record that cannot be sent is dropped.
  unfoldable pub peek : ℕ → OfflineQueue → Fs → Option Peeked × OfflineQueue × Fs
  peek output_size q fs =
      let (_, q1, fs1) = remove_oldest sd true q fs in
      if not q.ready || q.queued == 0 || output_size == 0 || q.oldest_record_id == 0
      then (none, q, fs)
      else elim (peek_file output_size q (open_read fs (record_path q.oldest_record_id))) [
        | none ↦ (none, q1, fs1)
        | some sent ↦ (some sent, q, fs)
      ]

  unfoldable pub mark_attempted : ℕ → Bool → OfflineQueue → Fs → Bool × Fs
  mark_attempted id replayed q fs =
      let path = record_path id in
      if not q.ready || id == 0 then (false, fs) else elim (open_update fs path) [
        | none ↦ (false, fs)
        | some f ↦
            let h = decode f.bytes in
            let (count, fs1) = overwrite fs path (encode (attempted replayed h)) in
            if not (length (take header_size f.bytes) == header_size)
              || not (h.magic == record_magic)
              || not (h.record_id == id)
            then (false, fs)
            else if seek_start fs path
            then (count == header_size, fs1)
            else (false, fs)
      ]

  unfoldable pub acknowledge : ℕ → OfflineQueue → Fs → Bool × OfflineQueue × Fs
  acknowledge id q fs =
      let (removed, q1, fs1) = remove_oldest sd false q fs in
      if not q.ready || id == 0 || not (id == q.oldest_record_id)
      then (false, q, fs)
      else elim (read_header sd fs id) [
        | none ↦ (false, q, fs)
        | some (h, size) ↦
            if not removed
            then (false, q1, fs1)
            else if has_flag h flag_last_publish_replayed
            then (
              true,
              record q1 { status = record (q1.status) { replayed = add32 q1.replayed 1 } },
              fs1,
            )
            else (true, q1, fs1)
      ]
