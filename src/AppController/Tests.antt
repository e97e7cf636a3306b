-- ===== src/AppController/Tests.antt =====
-- The theorems on the controller at concrete inputs: one record in the spool, a connected client.
use multisensory_device.Base.{
  ℕ, ◌≡◌, ◌≢◌, ◌⊎◌, refl, true, false, none, some, List, [], ◌∷◌, arith, add32, same_text,
  if◌then◌else◌,
}
use multisensory_device.Base.Text.{codes}
use multisensory_device.Base.Int.{pos, same_int}
use multisensory_device.OfflineQueuePolicy.{live_token, replay_token}
use multisensory_device.Storage.SdCard.Memory.{memory_card}
use multisensory_device.Storage.OfflineQueue.{Peeked}
use multisensory_device.Storage.OfflineQueue.Intake.{enqueue}
use multisensory_device.Storage.OfflineQueue.Delivery.{peek, acknowledge}
use multisensory_device.Storage.OfflineQueue.Tests.{runs, spool, started, card, sample}
use multisensory_device.SecureMqtt.{has_pending_telemetry, is_reconnecting, take_telemetry_ack}
use multisensory_device.SecureMqtt.Publish.{publish_telemetry, publish_to, publish_command_ack}
use multisensory_device.SecureMqtt.Tests.{broker, online}
use multisensory_device.AppController.{AppController}
use multisensory_device.AppController.Telemetry.{Moment, deliver, try_live, is_deferred}
use multisensory_device.AppController.Mqtt.{
  process_replay, send_record, is_replay_due, process_ack, mirror_status, process_command,
  process_secure_mqtt,
}
use multisensory_device.AppController.Pacing.{Step, turn, others, after, process_secure_mqtt-paced}
use multisensory_device.AppController.Commands.{
  Json, Names, Stamp, answer, answer_addressed, is_command, is_for_us,
  acknowledge_unsupported_command,
}
use multisensory_device.AppController.Durable.{acked, puback, live_puback_spares_spool}
use multisensory_device.AppController.Replay.{replayed_record_acknowledged}

abbrev pub device : AppController memory_card broker
device = record {
  offline_queue = spool;
  secure_mqtt = online;
  identity = record { boot_id = 3; sequence = 8; valid = true };
  mqtt_status = record {
    configured = true;
    connected = true;
    reconnecting = false;
    last_publish_ok = false;
    client_state = 0;
    last_publish_attempt_ms = 0;
    last_publish_success_ms = 0;
    last_publish_ack_ms = 0;
    last_acknowledged_token = 0;
  };
  last_replay_attempt_ms = 0;
  card = card;
  client = 0;
}

-- The same device over an empty spool, and over one that is not there.
abbrev empty : AppController memory_card broker
empty = record device { offline_queue = started; card = [] }

abbrev spoolless : AppController memory_card broker
spoolless = record device {
  offline_queue = record started { status = record (started.status) { ready = false } };
  card = [];
}

abbrev pub moment : Moment
moment = record {
  now_ms = 1000;
  sent_ms = 1001;
  epoch_seconds = 1700000000;
  ota_in_progress = false;
}

stored_run :
    (enqueue memory_card sample 1000 1700000000 (is_deferred memory_card broker empty) started []).0
    ≡ true
unfolding runs
stored_run = refl

abbrev live : AppController memory_card broker
live = deliver memory_card broker moment sample 9 spoolless

live_run : has_pending_telemetry live.secure_mqtt.slot ≡ true
unfolding deliver try_live publish_telemetry publish_to
live_run = refl

live_puback_spares_spool_example :
    let later = acked memory_card broker 2000 live in
    (live.secure_mqtt.slot.pending_token ≡ live_token 9)
    × (later.offline_queue ≡ live.offline_queue)
    × (later.card ≡ live.card)
    × (later.mqtt_status.last_publish_ok ≡ true)
    × (later.mqtt_status.last_acknowledged_token ≡ live_token 9)
live_puback_spares_spool_example =
    live_puback_spares_spool memory_card broker moment sample 9 spoolless 2000 refl live_run

due_run : is_replay_due memory_card broker 5000 device ≡ true
unfolding runs
due_run = refl

abbrev replaying : AppController memory_card broker
replaying = process_replay memory_card broker 5000 5001 device

abbrev found : Peeked
found = record { payload = sample; record_id = 1; replayed = false }

found_run : (peek memory_card 2048 spool card).0 ≡ some found
unfolding runs
found_run = refl

replaying_run : has_pending_telemetry replaying.secure_mqtt.slot ≡ true
unfolding runs process_replay send_record publish_telemetry publish_to
replaying_run = refl

replayed_record_acknowledged_example :
    let later = acked memory_card broker 6000 replaying in
    (is_replay_due memory_card broker 5000 device ≡ true)
    × (replaying.secure_mqtt.slot.pending_token ≡ replay_token 1)
    × (broker.enqueue device.client device.secure_mqtt.topics.telemetry sample 1 false
        ≡ (replaying.secure_mqtt.slot.pending_message_id, replaying.client))
    × (later.offline_queue ≡ (acknowledge memory_card 1 replaying.offline_queue replaying.card).1)
    × (later.card ≡ (acknowledge memory_card 1 replaying.offline_queue replaying.card).2)
    × (later.mqtt_status.last_publish_ok ≡ true)
replayed_record_acknowledged_example =
    replayed_record_acknowledged memory_card broker 5000 5001 device 6000 found refl replaying_run
      found_run (omega arith)

abbrev names : Names
names = record { device_id = codes "d"; vehicle_id = codes "v" }

-- Every text is read as a command for this device.
abbrev fixed : Json
fixed = record {
  Document = List ℕ;
  deserialize = λ text. some text;
  get_int = λ _ _. pos 1;
  get_text = λ d key.
      if same_text key (codes "message_type")
      then codes "command"
      else if same_text key (codes "device_id")
      then codes "d"
      else if same_text key (codes "vehicle_id")
      then codes "v"
      else d;
  serialize = λ _ _. codes "{}";
}

abbrev stamp : Stamp
stamp = record { uptime_ms = 5; measured_at = none }

answer_run : answer broker fixed names stamp (codes "c1") online 0 ≡ 1
unfolding answer is_command is_for_us acknowledge_unsupported_command publish_command_ack publish_to
    same_int same_text
answer_run = refl

answer_addressed_example :
    (answer broker fixed names stamp (codes "c1") online 0 ≡ 0)
    ⊎ ((d : List ℕ) × (some (codes "c1") ≡ some d)
        × (pos 1 ≡ pos 1)
        × (fixed.get_text d (codes "message_type") ≡ codes "command")
        × (fixed.get_text d (codes "command_id") ≢ [])
        × (fixed.get_text d (codes "device_id") ≡ codes "d")
        × (fixed.get_text d (codes "vehicle_id") ≡ codes "v")
        × (answer broker fixed names stamp (codes "c1") online 0
            ≡ (publish_to broker (codes "t/acks") (codes "{}") 1 false online.link 0).1))
answer_addressed_example = answer_addressed broker fixed names stamp (codes "c1") online 0

due_at_once :
    is_replay_due memory_card broker 5000
      (process_ack memory_card broker (mirror_status memory_card broker device))
    ≡ true
unfolding runs mirror_status is_reconnecting process_ack take_telemetry_ack
due_at_once = refl

-- The PUBACK of the record comes at once, and a turn after 100 milliseconds takes it.
abbrev soon : List (Step memory_card broker)
soon =
    others (puback replaying.secure_mqtt.slot.pending_message_id 5050 replaying)
    ∷ turn 100 5101
    ∷ []

process_secure_mqtt-paced_example :
    let later =
      after memory_card broker fixed names stamp 5000 soon
        (process_secure_mqtt memory_card broker fixed names stamp 5000 5001 device) in
    process_secure_mqtt memory_card broker fixed names stamp (add32 5000 249) 5300 later
    ≡ process_command memory_card broker fixed names stamp
        (process_ack memory_card broker (mirror_status memory_card broker later))
process_secure_mqtt-paced_example =
    process_secure_mqtt-paced memory_card broker fixed names stamp 5000 5001 249 5300 soon device
      (omega arith) (omega arith) (tt, (omega arith, tt)) due_at_once
