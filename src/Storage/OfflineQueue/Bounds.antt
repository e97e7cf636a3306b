-- ===== src/Storage/OfflineQueue/Bounds.antt =====
-- The spool stays within its limits, and its loops end by their tests.
use multisensory_device.Base.{
  ℕ, zero, suc, ◌+◌, ◌≤◌, ◌<◌, ◌≡◌, ◌≢◌, refl, sym, subst, Bool, true, false, some, List, arith,
  length, elapsed, if◌then◌else◌,
}
use multisensory_device.Config.{
  offline_queue_max_records, offline_queue_max_bytes, telemetry_payload_buffer_size,
  offline_queue_max_age_seconds,
}
use multisensory_device.OfflineQueuePolicy.{exceeds_limits, age_seconds}
use multisensory_device.Storage.OfflineRecord.{QueueRecordHeader, header_size, encode, record_path}
use multisensory_device.Storage.SdCard.{SdCard}
use multisensory_device.Storage.OfflineQueue.{
  OfflineQueue, read_header, find_oldest, remove_oldest, refresh_oldest_age, set_unavailable,
}
use multisensory_device.Storage.OfflineQueue.Intake.{
  make_room, ensure_capacity, fill_record, store_record, enqueue, crowded, one_queued, new_header,
}
use multisensory_device.Storage.OfflineQueue.Upkeep.{expire, update, expired}

module _ (sd : SdCard) where
  -- A removal that succeeds takes one record off the count.
  remove_oldest-queued :
      (count : Bool) (q : OfflineQueue) (fs : sd.Fs)
      → (remove_oldest sd count q fs).0 ≡ true
      → (remove_oldest sd count q fs).1.queued + 1 ≡ q.queued
  unfolding remove_oldest find_oldest
  remove_oldest-queued count q fs h = ground arith

  make_room-crowded :
      (fuel bytes : ℕ) (q : OfflineQueue) (fs : sd.Fs)
      → (make_room sd fuel bytes q fs).0 ≡ true
      → crowded (make_room sd fuel bytes q fs).1 bytes ≡ false
  unfolding make_room
  make_room-crowded zero bytes q fs h = ground arith
  make_room-crowded (suc fuel) bytes q fs h = ground (
    arith,
    make_room-crowded fuel bytes (remove_oldest sd true q fs).1 (remove_oldest sd true q fs).2,
  )

  store_record-true :
      (header payload path : List ℕ) (bytes now : ℕ) (q : OfflineQueue) (fs : sd.Fs)
      → (store_record sd header payload path bytes now q fs).0 ≡ true
      → (store_record sd header payload path bytes now q fs).1 ≡ one_queued bytes q
  unfolding store_record fill_record
  store_record-true header payload path bytes now q fs h = ground arith

  -- A record that `enqueue` takes is within the payload limit, and after it the spool is within both
  -- its limits, whatever it held before.
  pub enqueue_within_limits :
      (payload : List ℕ) (now now_epoch : ℕ) (deferred : Bool) (q : OfflineQueue) (fs : sd.Fs)
      → (enqueue sd payload now now_epoch deferred q fs).0 ≡ true
      → let q' = (enqueue sd payload now now_epoch deferred q fs).1 in
        (0 < length payload)
        × (length payload < telemetry_payload_buffer_size)
        × (0 < q'.queued)
        × (q'.queued ≤ offline_queue_max_records)
        × (q'.bytes ≤ offline_queue_max_bytes)
  unfolding enqueue ensure_capacity exceeds_limits
  enqueue_within_limits payload now now_epoch deferred q fs h =
      let bytes = header_size + length payload in
      let q1 = (make_room sd q.queued bytes q fs).1 in
      ground (
        arith,
        make_room-crowded q.queued bytes q fs,
        store_record-true (encode (new_header q1 payload now now_epoch deferred)) payload
            (record_path q1.next_record_id) bytes now q1 (make_room sd q.queued bytes q fs).2,
      )

  refresh_oldest_age-queued :
      (now_epoch : ℕ) (q : OfflineQueue) (fs : sd.Fs)
      → (refresh_oldest_age sd now_epoch q fs).queued ≡ q.queued
  unfolding refresh_oldest_age
  refresh_oldest_age-queued now_epoch q fs = ground arith

  refresh_oldest_age-last_maintenance_ms :
      (now_epoch : ℕ) (q : OfflineQueue) (fs : sd.Fs)
      → (refresh_oldest_age sd now_epoch q fs).last_maintenance_ms ≡ q.last_maintenance_ms
  unfolding refresh_oldest_age
  refresh_oldest_age-last_maintenance_ms now_epoch q fs = ground arith

  expire_ends :
      (fuel now now_epoch : ℕ) (q : OfflineQueue) (fs : sd.Fs)
      → q.queued ≤ fuel
      → (expire sd fuel now now_epoch q fs).0.ready ≡ true
      → expired (expire sd fuel now now_epoch q fs).0 ≡ false
  unfolding expire set_unavailable
  expire_ends zero now now_epoch q fs enough h = ground arith
  expire_ends (suc fuel) now now_epoch q fs enough h =
      let (removed, q1, fs1) = remove_oldest sd true q fs in
      ground (
        arith,
        remove_oldest-queued true q fs,
        refresh_oldest_age-queued now_epoch q1 fs1,
        expire_ends fuel now now_epoch (refresh_oldest_age sd now_epoch q1 fs1) fs1,
      )

  -- The age that the status shows is that of the record at the front, where its header can be read.
  abbrev IsAged : ℕ → OfflineQueue → sd.Fs → Type 0
  IsAged now_epoch q fs =
      (h : QueueRecordHeader) (size : ℕ)
      → read_header sd fs q.oldest_record_id ≡ some (h, size)
      → 0 < q.oldest_record_id
      → q.oldest_age_seconds ≡ age_seconds h.enqueued_epoch_seconds now_epoch

  abbrev IsAgedIfReady : ℕ → OfflineQueue × sd.Fs → Type 0
  IsAgedIfReady now_epoch (q, fs) = q.ready ≡ true → IsAged now_epoch q fs

  refresh_oldest_age-IsAged :
      (now_epoch : ℕ) (q : OfflineQueue) (fs : sd.Fs)
      → IsAged now_epoch (refresh_oldest_age sd now_epoch q fs) fs
  unfolding refresh_oldest_age
  refresh_oldest_age-IsAged now_epoch q fs h size e some_id = ground (arith, e, some_id)

  if-IsAgedIfReady :
      (b : Bool) (now_epoch : ℕ) (x y : OfflineQueue × sd.Fs)
      → IsAgedIfReady now_epoch x
      → IsAgedIfReady now_epoch y
      → IsAgedIfReady now_epoch (if b then x else y)
  if-IsAgedIfReady true now_epoch x y hx hy = hx
  if-IsAgedIfReady false now_epoch x y hx hy = hy

  set_unavailable-ready : (now : ℕ) (q : OfflineQueue) → (set_unavailable now q).ready ≡ false
  unfolding set_unavailable
  set_unavailable-ready now q = refl

  expire-IsAgedIfReady :
      (fuel now now_epoch : ℕ) (q : OfflineQueue) (fs : sd.Fs)
      → IsAged now_epoch q fs
      → IsAgedIfReady now_epoch (expire sd fuel now now_epoch q fs)
  unfolding expire
  expire-IsAgedIfReady zero now now_epoch q fs h = λ ready. h
  expire-IsAgedIfReady (suc fuel) now now_epoch q fs h =
      let (removed, q1, fs1) = remove_oldest sd true q fs in
      let rest = expire sd fuel now now_epoch (refresh_oldest_age sd now_epoch q1 fs1) fs1 in
      let gone : OfflineQueue × sd.Fs = (set_unavailable now q1, fs1) in
      if-IsAgedIfReady (expired q) now_epoch (if removed then rest else gone) (q, fs)
        (if-IsAgedIfReady removed now_epoch rest gone
          (expire-IsAgedIfReady fuel now now_epoch (refresh_oldest_age sd now_epoch q1 fs1) fs1
            (refresh_oldest_age-IsAged now_epoch q1 fs1))
          (λ ready. absurd (ground (arith, ready, set_unavailable-ready now q1))))
        (λ ready. h)

  update_due :
      (millis now now_epoch : ℕ) (q : OfflineQueue) (fs : sd.Fs)
      → q.ready ≡ true
      → 1000 ≤ elapsed now q.last_maintenance_ms
      → let q2 = record (refresh_oldest_age sd now_epoch q fs) { last_maintenance_ms = now } in
        update sd millis now now_epoch true q fs ≡ expire sd q2.queued now now_epoch q2 fs
  unfolding update
  update_due millis now now_epoch q fs ready due =
      ground (arith, ready, due, refresh_oldest_age-last_maintenance_ms now_epoch q fs)

  old_enough :
      (enqueued now_epoch : ℕ)
      → enqueued ≢ 0
      → age_seconds enqueued now_epoch ≤ offline_queue_max_age_seconds
      → now_epoch ≤ enqueued + offline_queue_max_age_seconds
  unfolding age_seconds
  old_enough enqueued now_epoch stamped h = ground (arith, stamped, h)

  -- A turn of the upkeep on a ready spool with the card there, at least a second after the last one, after
  -- which the spool is still ready: the record then at the front, if its header can be read and holds the
  -- time at which it was stored, was stored at most seven days before the clock of the turn.
  pub update_expires :
      (millis now now_epoch : ℕ) (q : OfflineQueue) (fs : sd.Fs) (h : QueueRecordHeader) (size : ℕ)
      → q.ready ≡ true
      → 1000 ≤ elapsed now q.last_maintenance_ms
      → (update sd millis now now_epoch true q fs).0.ready ≡ true
      → 0 < (update sd millis now now_epoch true q fs).0.queued
      → 0 < (update sd millis now now_epoch true q fs).0.oldest_record_id
      → read_header sd
          (update sd millis now now_epoch true q fs).1
          (update sd millis now now_epoch true q fs).0.oldest_record_id
        ≡ some (h, size)
      → h.enqueued_epoch_seconds ≢ 0
      → now_epoch ≤ h.enqueued_epoch_seconds + offline_queue_max_age_seconds
  update_expires millis now now_epoch q fs h size ready due stays more front readable stamped =
      let q2 = record (refresh_oldest_age sd now_epoch q fs) { last_maintenance_ms = now } in
      let same = update_due millis now now_epoch q fs ready due in
      let aged : IsAgedIfReady now_epoch (update sd millis now now_epoch true q fs) =
        subst (IsAgedIfReady now_epoch) (sym same) (
          expire-IsAgedIfReady q2.queued now now_epoch q2 fs
            (refresh_oldest_age-IsAged now_epoch q fs)) in
      let age = aged stays h size readable front in
      let ends = expire_ends q2.queued now now_epoch q2 fs (omega arith) in
      old_enough h.enqueued_epoch_seconds now_epoch stamped
        (ground (arith, same, stays, more, age, ends))
