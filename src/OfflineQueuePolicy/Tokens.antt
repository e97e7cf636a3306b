-- ===== src/OfflineQueuePolicy/Tokens.antt =====
-- The tokens are two disjoint name spaces.
use multisensory_device.Base.{
  ℕ, ◌+◌, ◌*◌, ◌/◌, ◌%◌, ◌≤◌, ◌<◌, ◌≡◌, true, false, arith, bit_and, bit_or,
}
use multisensory_device.Base.Bits.{bit_and-ones, bit_and-pow2, bit_or-pow2}
use multisensory_device.OfflineQueuePolicy.{
  replay_token, live_token, is_replay_token, record_id_from_token, record_id_mask,
}

low_bits : (x : ℕ) → bit_and x 0x7FFFFFFF ≡ x % 0x80000000
low_bits x = bit_and-ones 31 x

high_bit : (x : ℕ) → bit_and x 0x80000000 ≡ x / 0x80000000 % 2 * 0x80000000
high_bit x = bit_and-pow2 31 x

set_high : (y : ℕ) → y < 0x80000000 → bit_or 0x80000000 y ≡ 0x80000000 + y
set_high y h = bit_or-pow2 31 y h

pub replay_token-eq : (id : ℕ) → id ≤ record_id_mask → replay_token id ≡ 0x80000000 + id
unfolding replay_token
replay_token-eq id h =
    omega (arith, low_bits id, set_high (bit_and id 0x7FFFFFFF) (omega (arith, low_bits id)))

-- A spool record's token says that it is one and gives back the record's id, and no live sample's
-- token is taken for a record's, whatever the sequence number.
pub token_round_trip :
    (id sequence : ℕ)
    → id ≤ record_id_mask
    → (is_replay_token (replay_token id) ≡ true)
      × (record_id_from_token (replay_token id) ≡ id)
      × (is_replay_token (live_token sequence) ≡ false)
unfolding is_replay_token record_id_from_token live_token
token_round_trip id sequence h = (
  ground (arith, replay_token-eq id h, high_bit (replay_token id)),
  omega (arith, replay_token-eq id h, low_bits (replay_token id)),
  ground (arith, low_bits sequence, high_bit (bit_and sequence record_id_mask)),
)
