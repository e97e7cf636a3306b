-- ===== src/OfflineQueuePolicy/Tests.antt =====
-- The theorems of the policy at concrete inputs.
use multisensory_device.Base.{ℕ, ◌≡◌, refl, true, false, some, List, ◌++◌, arith}
use multisensory_device.Base.Text.{codes, c_string, strstr}
use multisensory_device.OfflineQueuePolicy.{
  replay_token, live_token, is_replay_token, record_id_from_token, mark_payload_replayed,
  replace_at, false_field,
}
use multisensory_device.OfflineQueuePolicy.Tokens.{token_round_trip}
use multisensory_device.OfflineQueuePolicy.Payload.{mark_payload_replayed_sound, Replaces}

token_round_trip_example :
    (is_replay_token (replay_token 7) ≡ true)
    × (record_id_from_token (replay_token 7) ≡ 7)
    × (is_replay_token (live_token 4294967295) ≡ false)
token_round_trip_example = token_round_trip 7 4294967295 (omega arith)

abbrev before : List ℕ
before = codes "{\"sequence\":7,"

abbrev payload : List ℕ
payload = before ++ (false_field ++ codes "}")

abbrev marked : List ℕ
marked = codes "{\"sequence\":7,\"replayed\":true}"

marked_run : mark_payload_replayed payload ≡ some marked
unfolding mark_payload_replayed c_string strstr replace_at
marked_run = refl

mark_payload_replayed_sound_example : Replaces payload marked
mark_payload_replayed_sound_example = mark_payload_replayed_sound payload marked marked_run
