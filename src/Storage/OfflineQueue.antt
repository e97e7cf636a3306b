-- ===== src/Storage/OfflineQueue.antt =====
-- storage/OfflineTelemetryQueue.h and .cpp: the class `OfflineTelemetryQueue`, a FIFO of records on the
-- memory card. A method takes and returns the object together with the state of the card. Pointers
-- that the callers pass are never null, and a null result pointer is left out.
pub mod Intake
pub mod Delivery
pub mod Upkeep
pub mod Bounds
pub mod Removal
pub mod RoundTrip
pub mod Tests
use multisensory_device.Base.{
  ℕ, zero, suc, ◌+◌, ◌-◌, ◌%◌, ◌≡◌, refl, Bool, true, false, not, ◌&&◌, ◌||◌, Option, none, some,
  List, [], ◌∷◌, ◌++◌, arith, bit_and, bit_or, ltb, leb, ◌==◌, if◌then◌else◌, length, take, drop,
  u32_mod, add32, elapsed,
}
use multisensory_device.Config.{
  telemetry_payload_buffer_size, offline_queue_max_records, offline_queue_max_bytes,
  offline_queue_max_age_seconds, sd_retry_interval_ms,
}
use multisensory_device.OfflineQueuePolicy.{
  record_id_mask, exceeds_limits, age_seconds, should_mark_replayed, mark_payload_replayed,
}
use multisensory_device.Storage.SdCard.{SdCard, DirEntry, OpenFile}
use multisensory_device.Storage.OfflineRecord.{
  QueueRecordHeader, header_size, record_magic, record_version, flag_deferred,
  flag_last_publish_replayed, encode, decode, checksum_of, record_path, parse_record_id,
  queue_directory, temporary_path,
}

pub record OfflineDeliveryStatus : Type 0 where
  pub ready : Bool
  pub queued : ℕ
  pub replayed : ℕ
  pub dropped : ℕ
  pub oldest_age_seconds : ℕ
  pub bytes : ℕ

pub record OfflineQueue : Type 0 where
  pub status : OfflineDeliveryStatus
  pub open status use *
  pub current_boot_id : ℕ
  pub next_record_id : ℕ
  pub oldest_record_id : ℕ
  pub last_begin_attempt_ms : ℕ
  pub last_maintenance_ms : ℕ

abbrev pub add64 : ℕ → ℕ → ℕ
add64 a b = (a + b) % 18446744073709551616

-- Changes of the status alone.
abbrev pub unready : OfflineQueue → OfflineQueue
unready q = record q { status = record (q.status) { ready = false } }

abbrev pub one_dropped : OfflineQueue → OfflineQueue
one_dropped q = record q { status = record (q.status) { dropped = add32 q.dropped 1 } }

abbrev pub aged : ℕ → OfflineQueue → OfflineQueue
aged age q = record q { status = record (q.status) { oldest_age_seconds = age } }

unfoldable pub set_unavailable : ℕ → OfflineQueue → OfflineQueue
set_unavailable now q = record (unready q) { last_begin_attempt_ms = now }

abbrev pub has_pending : OfflineQueue → Bool
has_pending q = q.ready && ltb 0 q.queued

-- 0 stands for no record.
unfoldable pub lesser : ℕ → ℕ → ℕ
lesser best id = if best == 0 || ltb id best then id else best

-- One round of the loop of `findOldest`.
abbrev pub older : ℕ → DirEntry → ℕ
older best e =
    if e.is_directory
    then best
    else elim (parse_record_id e.name) [ none ↦ best | some id ↦ lesser best id ]

unfoldable pub oldest_of : ℕ → List DirEntry → ℕ
oldest_of best [] = best
oldest_of best (e ∷ es) = oldest_of (older best e) es

-- What `begin` demands of a record before it is counted.
abbrev pub is_sound : ℕ → QueueRecordHeader × ℕ → Bool
is_sound id (h, size) =
    h.magic == record_magic
    && h.version == record_version
    && h.record_id == id
    && ltb 0 h.payload_length
    && ltb h.payload_length telemetry_payload_buffer_size
    && size == header_size + h.payload_length

-- `header.payloadLength + 1U > outputSize` over 32 bits.
unfoldable pub overflows_output : ℕ → ℕ → Bool
overflows_output payload_length output_size = ltb output_size (add32 payload_length 1)

pub record Peeked : Type 0 where
  pub payload : List ℕ
  pub record_id : ℕ
  pub replayed : Bool

abbrev pub has_flag : QueueRecordHeader → ℕ → Bool
has_flag h mask = not (bit_and h.flags mask == 0)

module _ (sd : SdCard) where
  open sd use {
    Fs, card_missing, exists, mkdir, remove, rename, open_read, open_write, write, open_update,
    seek_start, overwrite, open_dir,
  }

  unfoldable pub read_header : Fs → ℕ → Option (QueueRecordHeader × ℕ)
  read_header fs id = elim (open_read fs (record_path id)) [
    | none ↦ none
    | some f ↦
        if length (take header_size f.bytes) == header_size
        then some (decode f.bytes, f.size)
        else none
  ]

  unfoldable pub find_oldest : OfflineQueue → Fs → Bool × OfflineQueue
  find_oldest q fs = elim (open_dir fs queue_directory) [
    | none ↦ (false, record q { oldest_record_id = 0 })
    | some entries ↦
        let id = oldest_of 0 entries in (not (id == 0), record q { oldest_record_id = id })
  ]

  unfoldable pub refresh_oldest_age : ℕ → OfflineQueue → Fs → OfflineQueue
  refresh_oldest_age now_epoch q fs =
      if q.oldest_record_id == 0 then aged 0 q else elim (read_header fs q.oldest_record_id) [
        | none ↦ aged 0 q
        | some (h, size) ↦ aged (age_seconds h.enqueued_epoch_seconds now_epoch) q
      ]

  file_size : Fs → ℕ → ℕ
  file_size fs id = elim (open_read fs (record_path id)) [ none ↦ 0 | some f ↦ f.size ]

  -- The counters after a file of `size` bytes is gone.
  abbrev uncounted : Bool → ℕ → OfflineQueue → OfflineQueue
  uncounted count_as_dropped size q = record q {
    status = record (q.status) {
      queued = q.queued - 1;
      dropped = if count_as_dropped then add32 q.dropped 1 else q.dropped;
      bytes = if leb size q.bytes then q.bytes - size else 0;
    };
  }

  abbrev emptied : OfflineQueue → OfflineQueue
  emptied q = record (aged 0 q) { oldest_record_id = 0; next_record_id = 1 }

  unfoldable pub remove_oldest : Bool → OfflineQueue → Fs → Bool × OfflineQueue × Fs
  unfolding file_size
  remove_oldest count_as_dropped q fs =
      if q.oldest_record_id == 0 || q.queued == 0
      then (false, q, fs)
      else let size = file_size fs q.oldest_record_id in
        let (removed, fs1) = remove fs (record_path q.oldest_record_id) in
        let q1 = uncounted count_as_dropped size q in
        let (found, q2) = find_oldest q1 fs1 in
        if not removed
        then (false, q, fs1)
        else if q1.queued == 0
        then (true, emptied q1, fs1)
        else (found, q2, fs1)
