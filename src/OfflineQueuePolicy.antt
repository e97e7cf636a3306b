-- ===== src/OfflineQueuePolicy.antt =====
-- storage/OfflineQueuePolicy.h: the tokens that tie a publication to a spool record, and the rules of
-- the spool. The proofs are in the modules below.
pub mod Tokens
pub mod Limits
pub mod Payload
mod Tests
use multisensory_device.Base.{
  ℕ, ◌+◌, ◌-◌, ◌≤◌, ◌<◌, Bool, not, ◌||◌, Option, none, some, List, [], ◌∷◌, ◌++◌, bit_and, bit_or,
  ltb, leb, ◌==◌, if◌then◌else◌, length, take, drop,
}
use multisensory_device.Base.Text.{codes, c_string, strstr}

abbrev pub replay_token_mask : ℕ
replay_token_mask = 0x80000000

abbrev pub record_id_mask : ℕ
record_id_mask = 0x7FFFFFFF

unfoldable pub replay_token : ℕ → ℕ
replay_token record_id = bit_or replay_token_mask (bit_and record_id record_id_mask)

unfoldable pub live_token : ℕ → ℕ
live_token sequence = bit_and sequence record_id_mask

unfoldable pub is_replay_token : ℕ → Bool
is_replay_token token = not (bit_and token replay_token_mask == 0)

unfoldable pub record_id_from_token : ℕ → ℕ
record_id_from_token token = bit_and token record_id_mask

unfoldable pub should_mark_replayed : Bool → ℕ → ℕ → ℕ → Bool
should_mark_replayed deferred attempts record_boot_id current_boot_id =
    deferred || ltb 0 attempts || not (record_boot_id == current_boot_id)

-- The subtraction is made only where the record alone fits.
unfoldable pub exceeds_limits : ℕ → ℕ → ℕ → ℕ → ℕ → Bool
exceeds_limits queued bytes next_record_bytes max_records max_bytes =
    leb max_records queued
    || ltb max_bytes next_record_bytes
    || ltb (max_bytes - next_record_bytes) bytes

abbrev pub uint32_max : ℕ
uint32_max = 4294967295

unfoldable pub age_seconds : ℕ → ℕ → ℕ
age_seconds enqueued now =
    if enqueued == 0 || now == 0 || leb now enqueued
    then 0
    else if ltb uint32_max (now - enqueued)
    then uint32_max
    else now - enqueued

abbrev pub false_field : List ℕ
false_field = codes "\"replayed\":false"

abbrev pub true_field : List ℕ
true_field = codes "\"replayed\":true"

-- The payload is the buffer's first `length` bytes, and the byte behind them is zero. `none` is the
-- result `false`, with the buffer as it was; the new length is that of the result.
replace_at : List ℕ → ℕ → List ℕ
replace_at payload prefix =
    take prefix payload ++ (true_field ++ drop (prefix + length false_field) payload)

unfoldable pub mark_payload_replayed : List ℕ → Option (List ℕ)
unfolding replace_at
mark_payload_replayed payload =
    if length payload == 0 then none else elim (strstr false_field (c_string payload)) [
      | none ↦ none
      | some prefix ↦ some (replace_at payload prefix)
    ]
