-- ===== src/Storage/OfflineQueue/Intake.antt =====
-- Records come in: `begin`, `scanRecords`, `ensureCapacity` and `enqueue`.
use multisensory_device.Base.{
  ℕ, zero, suc, ◌+◌, Bool, true, false, not, ◌&&◌, ◌||◌, none, some, List, [], ◌∷◌, ltb, leb, ◌==◌,
  if◌then◌else◌, length, add32,
}
use multisensory_device.Config.{
  telemetry_payload_buffer_size, offline_queue_max_records, offline_queue_max_bytes,
}
use multisensory_device.OfflineQueuePolicy.{record_id_mask, exceeds_limits}
use multisensory_device.Storage.SdCard.{SdCard, DirEntry}
use multisensory_device.Storage.OfflineRecord.{
  QueueRecordHeader, header_size, record_magic, record_version, flag_deferred, encode, checksum_of,
  record_path, parse_record_id, queue_directory, temporary_path,
}
use multisensory_device.Storage.OfflineQueue.{
  OfflineQueue, unready, one_dropped, set_unavailable, add64, is_sound, read_header, remove_oldest,
}

abbrev pub crowded : OfflineQueue → ℕ → Bool
crowded q next_bytes =
    exceeds_limits q.queued q.bytes next_bytes offline_queue_max_records offline_queue_max_bytes

-- The header of a new record.
abbrev pub new_header : OfflineQueue → List ℕ → ℕ → ℕ → Bool → QueueRecordHeader
new_header q payload now now_epoch deferred = record {
  magic = record_magic;
  version = record_version;
  flags = if deferred then flag_deferred else 0;
  record_id = q.next_record_id;
  boot_id = q.current_boot_id;
  attempts = 0;
  enqueued_uptime_ms = now;
  enqueued_epoch_seconds = now_epoch;
  payload_length = length payload;
  checksum = checksum_of payload;
}

-- The object after the new record has its name.
abbrev pub one_queued : ℕ → OfflineQueue → OfflineQueue
one_queued record_bytes q = record q {
  status = record (q.status) { queued = add32 q.queued 1; bytes = add64 q.bytes record_bytes };
  oldest_record_id = if q.queued == 0 then q.next_record_id else q.oldest_record_id;
  next_record_id = add32 q.next_record_id 1;
}

-- What `enqueue` refuses before it touches the card.
abbrev pub refuses : OfflineQueue → List ℕ → Bool
refuses q payload =
    not q.ready
    || length payload == 0
    || leb telemetry_payload_buffer_size (length payload)
    || q.next_record_id == 0
    || ltb record_id_mask q.next_record_id

module _ (sd : SdCard) where
  open sd use {Fs, card_missing, exists, mkdir, remove, rename, open_write, write, open_dir}

  -- The loop removes a record a round, so `queued` rounds are enough.
  unfoldable pub make_room : ℕ → ℕ → OfflineQueue → Fs → Bool × OfflineQueue × Fs
  make_room zero next_bytes q fs = (not (crowded q next_bytes), q, fs)
  make_room (suc fuel) next_bytes q fs =
      let (removed, q1, fs1) = remove_oldest sd true q fs in
      let rest = make_room fuel next_bytes q1 fs1 in
      if ltb 0 q.queued && crowded q next_bytes
      then (if removed then rest else (false, q1, fs1))
      else (not (crowded q next_bytes), q, fs)

  unfoldable pub ensure_capacity : ℕ → OfflineQueue → Fs → Bool × OfflineQueue × Fs
  ensure_capacity next_bytes q fs = make_room q.queued next_bytes q fs

  -- The temporary file is open: it is written, checked and renamed.
  unfoldable pub fill_record :
      List ℕ → List ℕ → List ℕ → ℕ → ℕ → OfflineQueue → Fs → Bool × OfflineQueue × Fs
  fill_record header payload path record_bytes now q fs =
      let (header_written, fs1) = write fs temporary_path header in
      let (payload_written, fs2) = write fs1 temporary_path payload in
      let (renamed, fs3) = rename fs2 temporary_path path in
      if not (header_written == header_size) || not (payload_written == length payload)
      then (false, set_unavailable now q, (remove fs2 temporary_path).1)
      else if renamed
      then (true, one_queued record_bytes q, fs3)
      else (false, set_unavailable now q, (remove fs3 temporary_path).1)

  unfoldable pub store_record :
      List ℕ → List ℕ → List ℕ → ℕ → ℕ → OfflineQueue → Fs → Bool × OfflineQueue × Fs
  store_record header payload path record_bytes now q fs =
      let (_, fs1) = remove fs temporary_path in
      elim (open_write fs1 temporary_path) [
        | none ↦ (false, set_unavailable now q, fs1)
        | some fs2 ↦ fill_record header payload path record_bytes now q fs2
      ]

  unfoldable pub enqueue : List ℕ → ℕ → ℕ → Bool → OfflineQueue → Fs → Bool × OfflineQueue × Fs
  enqueue payload now now_epoch deferred q fs =
      let record_bytes = header_size + length payload in
      let (room, q1, fs1) = ensure_capacity record_bytes q fs in
      if refuses q payload
      then (false, q, fs)
      else if room
      then store_record (encode (new_header q1 payload now now_epoch deferred)) payload
          (record_path q1.next_record_id) record_bytes now q1 fs1
      else (false, one_dropped q1, fs1)

  -- What `scanRecords` gathers: the object with its counters, and the largest id so far.
  abbrev counted : ℕ → ℕ → OfflineQueue → OfflineQueue
  counted size id q = record q {
    status = record (q.status) { queued = add32 q.queued 1; bytes = add64 q.bytes size };
    oldest_record_id =
        if q.oldest_record_id == 0 || ltb id q.oldest_record_id then id else q.oldest_record_id;
  }

  unfoldable pub scan_entry : DirEntry → ℕ → OfflineQueue → Fs → ℕ × OfflineQueue × Fs
  scan_entry e largest q fs =
      if e.is_directory then (largest, q, fs) else elim (parse_record_id e.name) [
        | none ↦ (largest, q, fs)
        | some id ↦
            let sound : Bool = elim (read_header sd fs id) [
              | none ↦ false
              | some read ↦ is_sound id read
            ] in
            if sound
            then (if ltb largest id then id else largest, counted e.size id q, fs)
            else (largest, one_dropped q, (remove fs (record_path id)).1)
      ]

  unfoldable pub scan_entries : List DirEntry → ℕ → OfflineQueue → Fs → ℕ × OfflineQueue × Fs
  scan_entries [] largest q fs = (largest, q, fs)
  scan_entries (e ∷ es) largest q fs =
      let (largest1, q1, fs1) = scan_entry e largest q fs in scan_entries es largest1 q1 fs1

  abbrev uncounted_all : OfflineQueue → OfflineQueue
  uncounted_all q = record q {
    status = record (q.status) { queued = 0; bytes = 0 };
    oldest_record_id = 0;
  }

  unfoldable pub scan_records : OfflineQueue → Fs → Bool × OfflineQueue × Fs
  scan_records q fs = elim (open_dir fs queue_directory) [
    | none ↦ (false, uncounted_all q, fs)
    | some entries ↦
        let (largest, q1, fs1) = scan_entries entries 0 (uncounted_all q) fs in
        let next = if largest == 0 then 1 else add32 largest 1 in
        (leb next record_id_mask, record q1 { next_record_id = next }, fs1)
  ]

  -- `begin` from the place where the card is found to be there.
  unfoldable pub open_spool : OfflineQueue → Fs → Bool × OfflineQueue × Fs
  open_spool q fs =
      let fs1 = if exists fs temporary_path then (remove fs temporary_path).1 else fs in
      let (scanned, q1, fs2) = scan_records (record q { next_record_id = 1 }) fs1 in
      if scanned
      then (true, record q1 { status = record (q1.status) { ready = true } }, fs2)
      else (false, q1, fs2)

  unfoldable pub begin : ℕ → ℕ → OfflineQueue → Fs → Bool × OfflineQueue × Fs
  begin millis boot_id q fs =
      let q1 = record (unready q) { last_begin_attempt_ms = millis; current_boot_id = boot_id } in
      let (made, fs1) = mkdir fs queue_directory in
      if boot_id == 0 || card_missing fs
      then (false, q1, fs)
      else if exists fs queue_directory
      then open_spool q1 fs
      else if made
      then open_spool q1 fs1
      else (false, q1, fs1)
