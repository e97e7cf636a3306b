-- ===== src/SecureMqtt.antt =====
-- communication/SecureMqttClient.h and .cpp: the MQTT client over TLS. Its methods take and return the
-- object together with the state of the ESP-MQTT library's client; the event handler runs in that
-- library's task, so its steps come between the steps of the main loop.
pub mod Publish
pub mod Setup
pub mod Events
pub mod Acks
pub mod History
pub mod Commands
pub mod Tests
use multisensory_device.Base.{
  ℕ, ◌+◌, Bool, true, false, not, ◌&&◌, Option, none, some, List, [], ◌∷◌, ◌++◌, ltb, leb, ◌==◌,
  if◌then◌else◌, length, add32, elapsed,
}
use multisensory_device.Base.Int.{ℤ, pos, negsuc, is_negative, same_int}
use multisensory_device.Config.{mqtt_puback_timeout_ms, reconnect_backoff_min_ms}
use multisensory_device.Backoff.{increase_backoff}
use multisensory_device.MqttTopics.{MqttTopics}

-- What is used of ESP-MQTT, which is not part of the repository. A result 0 is ESP_OK; `enqueue` and
-- `subscribe` return a message id, or a negative number if they fail.
pub record EspMqtt : Type 1 where
  pub Client : Type 0
  pub start : Client → ℤ × Client
  pub reconnect : Client → ℤ × Client
  -- topic, payload, QoS, retained
  pub enqueue : Client → List ℕ → List ℕ → ℕ → Bool → ℤ × Client
  pub subscribe : Client → List ℕ → ℕ → ℤ × Client

-- The connection.
pub record Link : Type 0 where
  pub configured : Bool
  -- _client != nullptr
  pub has_client : Bool
  pub started : Bool
  pub connected : Bool
  pub attempt_in_progress : Bool
  pub last_error : ℤ
  pub next_attempt_ms : ℕ
  pub attempt_started_ms : ℕ
  pub backoff_ms : ℕ

-- The one telemetry message in flight, and the last acknowledgement.
pub record Slot : Type 0 where
  pub pending_message_id : ℤ
  pub pending_token : ℕ
  pub pending_started_ms : ℕ
  pub ack_ready : Bool
  pub acknowledged_token : ℕ
  pub acknowledged_at_ms : ℕ

-- The command that is being received.
pub record Inbox : Type 0 where
  pub receiving : Bool
  pub ready : Bool
  pub command_length : ℕ
  pub buffer : List ℕ

pub record SecureMqtt : Type 0 where
  pub link : Link
  pub slot : Slot
  pub inbox : Inbox
  pub topics : MqttTopics
  pub online_status : List ℕ

abbrev pub minus_one : ℤ
minus_one = negsuc 0

unfoldable pub schedule_reconnect : ℕ → Link → Link
schedule_reconnect now l = record l {
  next_attempt_ms = add32 now l.backoff_ms;
  backoff_ms = increase_backoff l.backoff_ms;
}

abbrev pub no_pending : Slot → Slot
no_pending s = record s {
  pending_message_id = minus_one;
  pending_token = 0;
  pending_started_ms = 0;
}

abbrev pub has_pending_telemetry : Slot → Bool
has_pending_telemetry s = not (is_negative s.pending_message_id)

unfoldable pub expire_pending : ℕ → Slot → Slot
expire_pending now s =
    if not (is_negative s.pending_message_id)
      && not (s.pending_started_ms == 0)
      && leb mqtt_puback_timeout_ms (elapsed now s.pending_started_ms)
    then no_pending s
    else s

unfoldable pub handle_published : ℤ → ℕ → Slot → Slot
handle_published message_id now s =
    if same_int message_id s.pending_message_id
    then record (no_pending s) {
      ack_ready = true;
      acknowledged_token = s.pending_token;
      acknowledged_at_ms = now;
    }
    else s

-- The token and the time of an acknowledgement, if one is there.
unfoldable pub take_telemetry_ack : Slot → Option (ℕ × ℕ) × Slot
take_telemetry_ack s =
    if s.ack_ready
    then (some (s.acknowledged_token, s.acknowledged_at_ms), record s { ack_ready = false })
    else (none, s)

unfoldable pub is_reconnecting : Link → Bool
is_reconnecting l = l.configured && l.started && not l.connected
