-- ===== src/SecureMqtt/Tests.antt =====
-- The theorems on the client at concrete inputs, over a library that takes every message.
use multisensory_device.Base.{
  zero, suc, ℕ, ◌+◌, ◌≤◌, ◌≡◌, ◌≢◌, refl, true, false, none, some, List, [], ◌∷◌, arith,
}
use multisensory_device.Base.Text.{codes}
use multisensory_device.Base.Int.{pos}
use multisensory_device.SecureMqtt.{
  EspMqtt, Slot, Inbox, SecureMqtt, has_pending_telemetry, handle_published, take_telemetry_ack,
  minus_one,
}
use multisensory_device.SecureMqtt.Publish.{publish_telemetry, publish_to, in_flight}
use multisensory_device.SecureMqtt.Events.{published, take_command}
use multisensory_device.SecureMqtt.Acks.{publish_telemetry_acked, early_puback_lost}
use multisensory_device.SecureMqtt.History.{
  Action, event, publish, take_ack, turn, run, count, acked_at_most_sent,
}
use multisensory_device.SecureMqtt.Commands.{parts, receive, command_received}

-- Messages are numbered from 1 on.
abbrev pub broker : EspMqtt
broker = record {
  Client = ℕ;
  start = λ c. (pos 0, c);
  reconnect = λ c. (pos 0, c);
  enqueue = λ c _ _ _ _. (pos (c + 1), c + 1);
  subscribe = λ c _ _. (pos (c + 1), c + 1);
}

abbrev bytes : ℕ → List ℕ
bytes zero = []
bytes (suc n) = 0 ∷ bytes n

abbrev pub online : SecureMqtt
online = record {
  link = record {
    configured = true;
    has_client = true;
    started = true;
    connected = true;
    attempt_in_progress = false;
    last_error = pos 0;
    next_attempt_ms = 0;
    attempt_started_ms = 0;
    backoff_ms = 5000;
  };
  slot = record {
    pending_message_id = minus_one;
    pending_token = 0;
    pending_started_ms = 0;
    ack_ready = false;
    acknowledged_token = 0;
    acknowledged_at_ms = 0;
  };
  inbox = record { receiving = false; ready = false; command_length = 0; buffer = bytes 1024 };
  topics = record {
    valid = true;
    telemetry = codes "t/telemetry";
    status = codes "t/status";
    events = codes "t/events";
    acoustic = codes "t/acoustic";
    commands = codes "t/commands";
    command_acks = codes "t/acks";
  };
  online_status = codes "{}";
}

abbrev sent : SecureMqtt
sent = (publish_telemetry broker (codes "{}") 7 100 online 0).1

sent_run :
    ((publish_telemetry broker (codes "{}") 7 100 online 0).0 ≡ true)
    × (sent.slot.pending_message_id ≡ pos 1)
unfolding publish_telemetry publish_to
sent_run = (refl, refl)

abbrev acked : Slot
acked = handle_published sent.slot.pending_message_id 350 sent.slot

other_id : pos 9 ≢ sent.slot.pending_message_id
unfolding publish_telemetry publish_to
other_id e = ground arith

publish_telemetry_acked_example :
    ((take_telemetry_ack acked).0 ≡ some (7, 350))
    × (has_pending_telemetry (take_telemetry_ack acked).1 ≡ false)
    × ((take_telemetry_ack (take_telemetry_ack acked).1).0 ≡ none)
    × (handle_published (pos 9) 350 sent.slot ≡ sent.slot)
publish_telemetry_acked_example =
    publish_telemetry_acked broker (codes "{}") 7 100 online 0 (pos 9) 350 sent_run.0 other_id

abbrev waiting : Slot
waiting = in_flight (pos 1) 7 4294967000 online.slot

early_puback_lost_example :
    let s = in_flight (pos 1) 7 100 (handle_published (pos 1) 99 online.slot) in
    (has_pending_telemetry s ≡ true) × ((take_telemetry_ack s).0 ≡ none)
early_puback_lost_example = early_puback_lost online.slot 1 7 100 99 refl refl

abbrev day : List Action
day =
    publish (codes "{}") 7 100
    ∷ event 200 (published (pos 1))
    ∷ take_ack
    ∷ event 300 (published (pos 1))
    ∷ take_ack
    ∷ turn 400 true
    ∷ []

acked_at_most_sent_example :
    let w = run broker day record { mqtt = online; client = 0; sent = []; acked = [] } in
    count 7 w.acked ≤ count 7 w.sent
acked_at_most_sent_example =
    acked_at_most_sent broker 7 day online 0 (tt, (tt, (tt, (tt, (tt, (tt, tt)))))) refl refl

abbrev arrived : Inbox
arrived =
    receive (codes "t/commands")
      (parts 7 0 (some (codes "t/commands")) (codes "{\"a\"" ∷ codes ":1}" ∷ [])) online.inbox

command_received_example :
    ((take_command 1024 arrived).0 ≡ some (codes "{\"a\":1}"))
    × ((take_command 1024 (take_command 1024 arrived).1).0 ≡ none)
command_received_example =
    command_received (codes "t/commands") (codes "{\"a\"") (codes ":1}" ∷ []) 1024 online.inbox refl
      refl (omega arith, (omega arith, tt)) (omega arith) (omega arith)
