-- ===== src/Storage/OfflineRecord/Layout.antt =====
-- A header is read back from its 40 bytes.
use multisensory_device.Base.{ℕ, ◌<◌, ◌≡◌, refl, List, ◌++◌, arith, length, u32_mod}
use multisensory_device.Storage.OfflineRecord.{
  QueueRecordHeader, encode, decode, to_bytes, of_bytes, header_size,
}

-- Each field fits its type in the struct.
pub record IsEncodable (h : QueueRecordHeader) : Type 0 where
  pub magic_lt : h.magic < u32_mod
  pub version_lt : h.version < 65536
  pub flags_lt : h.flags < 65536
  pub record_id_lt : h.record_id < u32_mod
  pub boot_id_lt : h.boot_id < u32_mod
  pub attempts_lt : h.attempts < u32_mod
  pub enqueued_uptime_ms_lt : h.enqueued_uptime_ms < u32_mod
  pub enqueued_epoch_seconds_lt : h.enqueued_epoch_seconds < 18446744073709551616
  pub payload_length_lt : h.payload_length < u32_mod
  pub checksum_lt : h.checksum < u32_mod

two : (n : ℕ) → n < 65536 → of_bytes (to_bytes 2 n) ≡ n
two n h = omega arith

four : (n : ℕ) → n < u32_mod → of_bytes (to_bytes 4 n) ≡ n
four n h = omega arith

eight : (n : ℕ) → n < 18446744073709551616 → of_bytes (to_bytes 8 n) ≡ n
eight n h = omega arith

pub length-encode : (h : QueueRecordHeader) → length (encode h) ≡ header_size
unfolding encode
length-encode h = refl

-- A header whose fields fit their types is read back as it was written, whatever bytes follow.
pub decode-encode :
    (h : QueueRecordHeader) (rest : List ℕ) → IsEncodable h → decode (encode h ++ rest) ≡ h
unfolding decode encode
decode-encode h rest v = λ i. record {
  magic = four h.magic v.magic_lt i;
  version = two h.version v.version_lt i;
  flags = two h.flags v.flags_lt i;
  record_id = four h.record_id v.record_id_lt i;
  boot_id = four h.boot_id v.boot_id_lt i;
  attempts = four h.attempts v.attempts_lt i;
  enqueued_uptime_ms = four h.enqueued_uptime_ms v.enqueued_uptime_ms_lt i;
  enqueued_epoch_seconds = eight h.enqueued_epoch_seconds v.enqueued_epoch_seconds_lt i;
  payload_length = four h.payload_length v.payload_length_lt i;
  checksum = four h.checksum v.checksum_lt i;
}
