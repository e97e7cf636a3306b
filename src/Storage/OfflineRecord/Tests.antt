-- ===== src/Storage/OfflineRecord/Tests.antt =====
-- The theorems on records at concrete inputs.
use multisensory_device.Base.{◌<◌, ◌≡◌, refl, false, some, [], ◌∷◌, ◌++◌, arith, length}
use multisensory_device.Base.Text.{codes, starts_with}
use multisensory_device.Base.Decimal.{print_padded}
use multisensory_device.Storage.OfflineRecord.{
  QueueRecordHeader, encode, decode, record_path, parse_record_id, queue_directory,
}
use multisensory_device.Storage.OfflineRecord.Layout.{decode-encode}
use multisensory_device.Storage.OfflineRecord.Path.{record_path_round_trip, foreign_suffix_accepted}

abbrev header : QueueRecordHeader
header = record {
  magic = 0x56535131;
  version = 1;
  flags = 3;
  record_id = 12;
  boot_id = 42;
  attempts = 2;
  enqueued_uptime_ms = 4294967295;
  enqueued_epoch_seconds = 1700000000;
  payload_length = 512;
  checksum = 99;
}

decode-encode_example : decode (encode header ++ (1 ∷ 2 ∷ [])) ≡ header
decode-encode_example = decode-encode header (1 ∷ 2 ∷ []) (record {
  magic_lt = omega arith;
  version_lt = omega arith;
  flags_lt = omega arith;
  record_id_lt = omega arith;
  boot_id_lt = omega arith;
  attempts_lt = omega arith;
  enqueued_uptime_ms_lt = omega arith;
  enqueued_epoch_seconds_lt = omega arith;
  payload_length_lt = omega arith;
  checksum_lt = omega arith;
})

record_path_round_trip_example :
    (parse_record_id (record_path 12) ≡ some 12) × (length (record_path 12) < 48)
record_path_round_trip_example = record_path_round_trip 12 (omega arith) (omega arith)

not_msg : starts_with (codes ".msg") (codes ".bak") ≡ false
unfolding starts_with
not_msg = refl

foreign_suffix_accepted_example :
    parse_record_id (queue_directory ++ (codes "/q_" ++ (print_padded 10 12 ++ codes ".bak")))
    ≡ some 12
foreign_suffix_accepted_example =
    foreign_suffix_accepted 12 (codes ".bak") (omega arith) (omega arith) (λ d. omega arith) not_msg
      (omega arith)
