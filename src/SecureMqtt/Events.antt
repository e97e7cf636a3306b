-- ===== src/SecureMqtt/Events.antt =====
-- The events of the library: `handleEvent` and its handlers.
use multisensory_device.Base.{
  ℕ, ◌+◌, Bool, true, false, not, ◌&&◌, ◌||◌, Option, none, some, List, [], ◌∷◌, ◌++◌, ltb, leb,
  ◌==◌, if◌then◌else◌, length, take, drop, same_text,
}
use multisensory_device.Base.Int.{ℤ, pos, negsuc, same_int}
use multisensory_device.Config.{mqtt_command_buffer_size, reconnect_backoff_min_ms}
use multisensory_device.SecureMqtt.{
  EspMqtt, Link, Inbox, SecureMqtt, schedule_reconnect, handle_published,
}
use multisensory_device.SecureMqtt.Publish.{publish_status}

-- A part of an incoming message. A null pointer is `none`; the data's length is that of the list.
pub record Chunk : Type 0 where
  pub topic : Option (List ℕ)
  pub part : Option (List ℕ)
  pub current_data_offset : ℤ
  pub total_data_len : ℤ

pub data ErrorHandle : Type 0 where
  refused : ℕ → ErrorHandle
  transport : ℤ → ErrorHandle

pub data Event : Type 0 where
  connected disconnected other : Event
  published : ℤ → Event
  incoming : Chunk → Event
  error : Option ErrorHandle → Event

abbrev topic_matches : List ℕ → Option (List ℕ) → Bool
topic_matches commands none = false
topic_matches commands (some topic) = same_text topic commands

-- Whether a message of this length goes into the buffer.
abbrev fits_buffer : ℤ → Bool
fits_buffer (pos n) = ltb 0 n && ltb n mqtt_command_buffer_size
fits_buffer (negsuc n) = false

-- memcpy to a place in the buffer.
unfoldable pub write_at : ℕ → List ℕ → List ℕ → List ℕ
write_at offset text buffer = take offset buffer ++ (text ++ drop (offset + length text) buffer)

unfoldable pub open_message : List ℕ → Chunk → Inbox → Inbox
open_message commands e b =
    if same_int e.current_data_offset (pos 0)
    then record b {
      receiving = topic_matches commands e.topic && not b.ready && fits_buffer e.total_data_len;
      command_length = 0;
    }
    else b

unfoldable pub store_chunk : ℕ → List ℕ → ℤ → Inbox → Inbox
store_chunk offset chunk total b =
    let end = offset + length chunk in
    let buffer = write_at offset chunk b.buffer in
    if leb mqtt_command_buffer_size end
    then record b { receiving = false }
    else if same_int (pos end) total
    then record {
      receiving = false;
      ready = true;
      command_length = end;
      buffer = write_at end (0 ∷ []) buffer;
    }
    else record b { command_length = end; buffer = buffer }

-- The guards on the data, by the cases of the pointer and of the sign.
unfoldable pub add_chunk : Option (List ℕ) → ℤ → ℤ → Inbox → Inbox
add_chunk none offset total b = b
add_chunk (some chunk) (negsuc n) total b = b
add_chunk (some chunk) (pos offset) total b =
    if not b.receiving || length chunk == 0 then b else store_chunk offset chunk total b

unfoldable pub handle_incoming_data : List ℕ → Chunk → Inbox → Inbox
handle_incoming_data commands e b =
    add_chunk e.part e.current_data_offset e.total_data_len (open_message commands e b)

unfoldable pub take_command : ℕ → Inbox → Option (List ℕ) × Inbox
take_command output_size b =
    if output_size == 0
    then (none, b)
    else if b.ready && leb (b.command_length + 1) output_size
    then (some (take b.command_length b.buffer), record b { ready = false; command_length = 0 })
    else (none, b)

abbrev on_connected : Link → Link
on_connected l = record l {
  connected = true;
  attempt_in_progress = false;
  backoff_ms = reconnect_backoff_min_ms;
  last_error = pos 0;
}

abbrev on_disconnected : ℕ → Link → Link
on_disconnected now l =
    schedule_reconnect now (record l { connected = false; attempt_in_progress = false })

abbrev on_error : Option ErrorHandle → Link → Link
on_error none l = l
on_error (some (refused code)) l = record l { last_error = pos (100 + code) }
on_error (some (transport code)) l = record l { last_error = code }

module _ (esp : EspMqtt) where
  open esp use {Client, subscribe}

  unfoldable pub handle_connected : SecureMqtt → Client → SecureMqtt × Client
  handle_connected m c =
      let m1 = record m { link = on_connected m.link } in
      let (_, c1) = subscribe c m.topics.commands 1 in (m1, (publish_status esp m1 c1).1)

  unfoldable pub handle_event : ℕ → Event → SecureMqtt → Client → SecureMqtt × Client
  handle_event now connected m c = handle_connected m c
  handle_event now disconnected m c = (record m { link = on_disconnected now m.link }, c)
  handle_event now (published id) m c = (record m { slot = handle_published id now m.slot }, c)
  handle_event now (incoming e) m c =
      (record m { inbox = handle_incoming_data m.topics.commands e m.inbox }, c)
  handle_event now (error e) m c = (record m { link = on_error e m.link }, c)
  handle_event now other m c = (m, c)
