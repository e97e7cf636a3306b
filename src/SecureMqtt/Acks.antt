-- ===== src/SecureMqtt/Acks.antt =====
-- The telemetry message in flight: one at a time, acknowledged once, given up after a time.
use multisensory_device.Base.{
  ℕ, ◌≤◌, ◌<◌, ◌≡◌, ◌≢◌, ◌↔◌, refl, true, false, none, some, List, arith, u32_mod, add32, elapsed,
}
use multisensory_device.Base.Int.{ℤ, pos, same_int, same_int_iff}
use multisensory_device.SecureMqtt.{
  EspMqtt, Slot, SecureMqtt, has_pending_telemetry, expire_pending, handle_published,
  take_telemetry_ack, minus_one,
}
use multisensory_device.SecureMqtt.Publish.{publish_telemetry, publish_to, in_flight}

-- The slot alone: the id of the message in flight, and another one.
slot_acked :
    (s : Slot) (token : ℕ) (other : ℤ) (now : ℕ)
    → s.pending_token ≡ token
    → other ≢ s.pending_message_id
    → let acked = handle_published s.pending_message_id now s in
      let (ack, s') = take_telemetry_ack acked in
      (ack ≡ some (token, now))
      × (has_pending_telemetry s' ≡ false)
      × ((take_telemetry_ack s').0 ≡ none)
      × (handle_published other now s ≡ s)
unfolding handle_published take_telemetry_ack
slot_acked s token other now e ne =
    let own : same_int s.pending_message_id s.pending_message_id ≡ true =
      (same_int_iff s.pending_message_id s.pending_message_id).1 refl in
    let foreign : same_int other s.pending_message_id ≡ false =
      ground (arith, ne, (same_int_iff other s.pending_message_id).0) in
    ground (arith, own, foreign, e)

module _ (esp : EspMqtt) (payload : List ℕ) (token millis : ℕ) (m : SecureMqtt)
    (c : esp.Client) where
  -- A telemetry publication that the client takes was made over a connection with nothing in flight, and is
  -- in flight from then on. While it is, no further telemetry is taken, whatever it is, and the library is
  -- not even called.
  pub publish_telemetry_once :
      (again : List ℕ) (token' millis' : ℕ) (c' : esp.Client)
      → (publish_telemetry esp payload token millis m c).0 ≡ true
      → let m' = (publish_telemetry esp payload token millis m c).1 in
        (m.link.connected ≡ true)
        × (has_pending_telemetry m.slot ≡ false)
        × (has_pending_telemetry m'.slot ≡ true)
        × (m'.slot.pending_token ≡ token)
        × (publish_telemetry esp again token' millis' m' c' ≡ (false, m', c'))
  unfolding publish_telemetry publish_to
  publish_telemetry_once again token' millis' c' h = ground arith

  -- The PUBACK with the id of the message in flight yields the publication's token, once, and frees the
  -- slot; one with another id changes nothing.
  pub publish_telemetry_acked :
      (other : ℤ) (now : ℕ)
      → (publish_telemetry esp payload token millis m c).0 ≡ true
      → other ≢ (publish_telemetry esp payload token millis m c).1.slot.pending_message_id
      → let s = (publish_telemetry esp payload token millis m c).1.slot in
        let acked = handle_published s.pending_message_id now s in
        let (ack, s') = take_telemetry_ack acked in
        (ack ≡ some (token, now))
        × (has_pending_telemetry s' ≡ false)
        × ((take_telemetry_ack s').0 ≡ none)
        × (handle_published other now s ≡ s)
  publish_telemetry_acked other now h ne =
      let s = (publish_telemetry esp payload token millis m c).1.slot in
      let once = publish_telemetry_once payload 0 0 c h in slot_acked s token other now once.3 ne

-- A message that was put in flight at `started`, a moment other than 0 on the clock, is given up after
-- half a minute and not before.
pub expire_pending_iff :
    (s : Slot) (wait : ℕ)
    → has_pending_telemetry s ≡ true
    → 0 < s.pending_started_ms
    → s.pending_started_ms < u32_mod
    → wait < u32_mod
    → (has_pending_telemetry (expire_pending (add32 s.pending_started_ms wait) s) ≡ false)
      ↔ (30000 ≤ wait)
unfolding expire_pending
expire_pending_iff s wait p set h k =
    let e : elapsed (add32 s.pending_started_ms wait) s.pending_started_ms ≡ wait = omega arith in
    (λ q. ground (arith, e), λ q. ground (arith, e))

-- A message that was put in flight when the millisecond clock read 0 is never given up, because 0 also
-- stands for no start.
pub expire_pending_zero : (s : Slot) (now : ℕ) → s.pending_started_ms ≡ 0 → expire_pending now s ≡ s
unfolding expire_pending
expire_pending_zero s now e = ground arith

-- The code hands a message to the library first and records it as in flight afterwards. If the PUBACK
-- comes between the two, it is lost: the client holds the message for unacknowledged, and no
-- acknowledgement is there to take.
pub early_puback_lost :
    (s : Slot) (n token millis now : ℕ)
    → s.pending_message_id ≡ minus_one
    → s.ack_ready ≡ false
    → let s' = in_flight (pos n) token millis (handle_published (pos n) now s) in
      (has_pending_telemetry s' ≡ true) × ((take_telemetry_ack s').0 ≡ none)
unfolding handle_published take_telemetry_ack same_int
early_puback_lost s n token millis now p a = ground arith
