-- ===== src/Storage/OfflineQueue/Tests.antt =====
-- Runs of the spool on a card kept in memory, and the theorems at concrete inputs.
use multisensory_device.Base.{
  ℕ, ◌+◌, ◌≤◌, ◌<◌, ◌≡◌, refl, true, false, some, List, [], ◌∷◌, arith, length, if◌then◌else◌,
  add32,
}
use multisensory_device.Base.Text.{codes, c_string, strstr}
use multisensory_device.OfflineQueuePolicy.{
  exceeds_limits, age_seconds, should_mark_replayed, mark_payload_replayed,
}
use multisensory_device.Storage.SdCard.Memory.{
  memory_card, memory_card-IsReliable, Files, find, erase, list_files,
}
use multisensory_device.Storage.OfflineRecord.{
  QueueRecordHeader, record_path, parse_record_id, encode, decode, checksum_of,
}
use multisensory_device.Storage.OfflineQueue.Bounds.{enqueue_within_limits, update_expires}
use multisensory_device.Storage.OfflineQueue.RoundTrip.{peek-enqueue, sent_as}
use multisensory_device.Storage.OfflineQueue.Removal.{acknowledge-true}
use multisensory_device.Base.Decimal.{print_padded}
use multisensory_device.Storage.OfflineQueue.{
  OfflineQueue, has_flag, remove_oldest, find_oldest, oldest_of, read_header, refresh_oldest_age,
  lesser, set_unavailable, overflows_output,
}
use multisensory_device.Storage.OfflineQueue.Intake.{
  new_header, enqueue, ensure_capacity, make_room, store_record, fill_record, begin, open_spool,
  scan_records, scan_entries, scan_entry,
}
use multisensory_device.Storage.OfflineQueue.Delivery.{
  peek, peek_file, read_payload, outgoing, rejects_header, mark_attempted, acknowledge,
}
use multisensory_device.Storage.OfflineQueue.Upkeep.{update, expire}

abbrev fresh : OfflineQueue
fresh = record {
  status = record {
    ready = false;
    queued = 0;
    replayed = 0;
    dropped = 0;
    oldest_age_seconds = 0;
    bytes = 0;
  };
  current_boot_id = 0;
  next_record_id = 1;
  oldest_record_id = 0;
  last_begin_attempt_ms = 0;
  last_maintenance_ms = 0;
}

abbrev pub sample : List ℕ
sample = codes "{\"sequence\":7,\"replayed\":false}"

-- The spool right after `begin` on an empty card.
abbrev pub started : OfflineQueue
started = record fresh {
  status = record (fresh.status) { ready = true };
  current_boot_id = 3;
  last_begin_attempt_ms = 5;
}

-- What the runs below compute with.
unfoldable pub runs : ℕ
unfolding begin open_spool scan_records scan_entries scan_entry list_files find erase enqueue
    ensure_capacity make_room store_record fill_record exceeds_limits remove_oldest find_oldest
    oldest_of read_header refresh_oldest_age lesser set_unavailable overflows_output peek peek_file
    read_payload outgoing rejects_header mark_attempted acknowledge update expire
    should_mark_replayed mark_payload_replayed age_seconds record_path parse_record_id encode decode
    checksum_of c_string strstr print_padded
runs = 0

begin_run : begin memory_card 5 3 fresh [] ≡ (true, started, [])
unfolding runs
begin_run = refl

-- One record on the card, of epoch second 1700000000.
abbrev pub spool : OfflineQueue
spool = (enqueue memory_card sample 1000 1700000000 false started []).1

abbrev pub card : Files
card = (enqueue memory_card sample 1000 1700000000 false started []).2

restart_run : (begin memory_card 9 4 fresh card).1.queued ≡ 1
unfolding runs
restart_run = refl

-- After a restart the same record is sent as a replay.
replay_run :
    (peek memory_card 2048 (begin memory_card 9 4 fresh card).1 card).0
    ≡ some (record {
      payload = codes "{\"sequence\":7,\"replayed\":true}";
      record_id = 1;
      replayed = true;
    })
unfolding runs
replay_run = refl

enqueue_within_limits_example :
    (0 < length sample)
    × (length sample < 2048)
    × (0 < spool.queued)
    × (spool.queued ≤ 256)
    × (spool.bytes ≤ 786432)
unfolding runs
enqueue_within_limits_example =
    enqueue_within_limits memory_card sample 1000 1700000000 false started [] refl

-- Eight days later the record is gone.
abbrev eight_days : OfflineQueue
eight_days = (update memory_card 5000 5000 1700691200 true spool card).0

expiry_run : (eight_days.queued ≡ 0) × (eight_days.dropped ≡ 1)
unfolding runs
expiry_run = (refl, refl)

-- An hour later it stays.
abbrev an_hour : OfflineQueue × Files
an_hour = update memory_card 5000 5000 1700003600 true spool card

abbrev front : QueueRecordHeader
front = new_header started sample 1000 1700000000 false

front_run :
    read_header memory_card an_hour.1 an_hour.0.oldest_record_id ≡ some (front, 40 + length sample)
unfolding runs
front_run = refl

still_there : (an_hour.0.ready ≡ true) × (0 < an_hour.0.queued) × (0 < an_hour.0.oldest_record_id)
unfolding runs
still_there = (refl, omega arith, omega arith)

update_expires_example : 1700003600 ≤ 1700000000 + 604800
unfolding runs
update_expires_example =
    update_expires memory_card 5000 5000 1700003600 spool card front (40 + length sample) refl
      (omega arith) still_there.0 still_there.1 still_there.2 front_run (omega arith)

sample_accepted : (enqueue memory_card sample 1000 1700000000 false started []).0 ≡ true
unfolding runs
sample_accepted = refl

peek-enqueue_example : (peek memory_card 2048 spool card).0 ≡ sent_as false 1 sample
peek-enqueue_example =
    peek-enqueue memory_card memory_card-IsReliable sample 1000 1700000000 false started [] refl
      (omega arith) (omega arith) (omega arith) sample_accepted

abbrev three_files : Files
three_files =
    (codes "/spool/q_0000000012.msg", [])
    ∷ (codes "/spool/q_0000000007.msg", [])
    ∷ (codes "/spool/tmp.msg", [])
    ∷ []

-- The record is sent as a replay and acknowledged.
abbrev sent_card : Files
sent_card = (mark_attempted memory_card 1 true spool card).1

abbrev acknowledged : OfflineQueue
acknowledged = (acknowledge memory_card 1 spool sent_card).1

acknowledge_run :
    (acknowledged.queued ≡ 0) × (acknowledged.replayed ≡ 1) × (acknowledged.next_record_id ≡ 1)
unfolding runs
acknowledge_run = (refl, refl, refl)

sent_accepted : (acknowledge memory_card 1 spool sent_card).0 ≡ true
unfolding runs
sent_accepted = refl

acknowledge-true_example :
    (h : QueueRecordHeader) × (size : ℕ) × (spool.ready ≡ true)
    × (1 ≡ spool.oldest_record_id)
    × (read_header memory_card sent_card 1 ≡ some (h, size))
    × (memory_card.remove sent_card (record_path 1)
        ≡ (true, (acknowledge memory_card 1 spool sent_card).2))
    × (acknowledged.queued + 1 ≡ spool.queued)
    × (acknowledged.dropped ≡ spool.dropped)
    × (acknowledged.replayed ≡ (if has_flag h 2 then add32 spool.replayed 1 else spool.replayed))
acknowledge-true_example = acknowledge-true memory_card 1 spool sent_card sent_accepted
