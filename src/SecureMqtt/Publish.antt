-- ===== src/SecureMqtt/Publish.antt =====
-- Publications and connection attempts: the `publish` methods and `update`.
use multisensory_device.Base.{
  ℕ, ◌≡◌, refl, Bool, true, false, not, ◌&&◌, ◌||◌, Option, none, some, List, ltb, ◌==◌,
  if◌then◌else◌, length,
}
use multisensory_device.Base.Int.{ℤ, pos, is_negative, same_int}
use multisensory_device.Backoff.{reached}
use multisensory_device.SecureMqtt.{
  EspMqtt, Link, Slot, SecureMqtt, has_pending_telemetry, schedule_reconnect, expire_pending,
}

abbrev pub int_max : ℕ
int_max = 2147483647

-- The message that is now in flight.
abbrev pub in_flight : ℤ → ℕ → ℕ → Slot → Slot
in_flight id token millis s = record s {
  pending_message_id = id;
  pending_token = token;
  pending_started_ms = millis;
}

module _ (esp : EspMqtt) where
  open esp use {Client, start, reconnect, enqueue}

  -- The message id, if the library took the message.
  unfoldable pub publish_to : List ℕ → List ℕ → ℕ → Bool → Link → Client → Option ℤ × Client
  publish_to topic payload qos retain l c =
      let (id, c1) = enqueue c topic payload qos retain in
      if not l.connected || length payload == 0 || ltb int_max (length payload)
      then (none, c)
      else if is_negative id
      then (none, c1)
      else (some id, c1)

  -- `millis` is read after the message was handed over.
  unfoldable pub publish_telemetry :
      List ℕ → ℕ → ℕ → SecureMqtt → Client → Bool × SecureMqtt × Client
  publish_telemetry payload token millis m c =
      let (sent, c1) = publish_to m.topics.telemetry payload 1 false m.link c in
      if has_pending_telemetry m.slot then (false, m, c) else elim sent [
        | none ↦ (false, m, c1)
        | some id ↦ (true, record m { slot = in_flight id token millis m.slot }, c1)
      ]

  abbrev is_sent : Option ℤ × Client → Bool × Client
  is_sent (none, c) = (false, c)
  is_sent (some id, c) = (true, c)

  pub is_sent-client : (r : Option ℤ × Client) → (is_sent r).1 ≡ r.1
  is_sent-client (none, c) = refl
  is_sent-client (some id, c) = refl

  unfoldable pub publish_command_ack : List ℕ → SecureMqtt → Client → Bool × Client
  publish_command_ack payload m c =
      is_sent (publish_to m.topics.command_acks payload 1 false m.link c)

  unfoldable pub publish_acoustic : List ℕ → SecureMqtt → Client → Bool × Client
  publish_acoustic payload m c = is_sent (publish_to m.topics.acoustic payload 1 false m.link c)

  unfoldable pub publish_event : List ℕ → SecureMqtt → Client → Bool × Client
  publish_event payload m c = is_sent (publish_to m.topics.events payload 1 false m.link c)

  unfoldable pub publish_status : SecureMqtt → Client → Bool × Client
  publish_status m c = is_sent (publish_to m.topics.status m.online_status 1 true m.link c)

  abbrev attempting : ℕ → Link → Link
  attempting now l = record l { attempt_in_progress = true; attempt_started_ms = now }

  -- After a call of the library: an attempt runs, or the next one is scheduled.
  abbrev attempted : ℕ → ℤ → Link → Link → Link
  attempted now result success l =
      if same_int result (pos 0)
      then attempting now success
      else schedule_reconnect now (record l { last_error = result })

  unfoldable pub update_link : ℕ → Bool → Link → Client → Link × Client
  update_link now network_ready l c =
      let (start_result, c1) = start c in
      let (reconnect_result, c2) = reconnect c in
      if not l.configured || not l.has_client || not network_ready
      then (l, c)
      else if not l.started
      then (if not (reached now l.next_attempt_ms)
          then (l, c)
          else (attempted now start_result (record l { started = true }) l, c1))
      else if not l.connected && not l.attempt_in_progress && reached now l.next_attempt_ms
      then (attempted now reconnect_result l l, c2)
      else (l, c)

  unfoldable pub update : ℕ → Bool → SecureMqtt → Client → SecureMqtt × Client
  update now network_ready m c =
      let (l, c1) = update_link now network_ready m.link c in
      (record m { link = l; slot = expire_pending now m.slot }, c1)
