-- ===== src/AppController/Replay.antt =====
-- Records of the spool that are sent again: one at a time, and forgotten on their own PUBACK alone.
use multisensory_device.Base.{ℕ, ◌≤◌, ◌≡◌, ◌≢◌, sym, true, false, some, arith}
use multisensory_device.Base.Int.{ℤ, same_int, same_int_iff}
use multisensory_device.Storage.SdCard.{SdCard}
use multisensory_device.Storage.OfflineQueue.{Peeked}
use multisensory_device.Storage.OfflineQueue.Delivery.{peek, acknowledge}
use multisensory_device.OfflineQueuePolicy.{replay_token, record_id_from_token, record_id_mask}
use multisensory_device.OfflineQueuePolicy.Tokens.{token_round_trip}
use multisensory_device.SecureMqtt.{
  EspMqtt, has_pending_telemetry, handle_published, take_telemetry_ack,
}
use multisensory_device.SecureMqtt.Publish
use multisensory_device.AppController.{AppController}
use multisensory_device.AppController.Mqtt.{
  process_ack, process_replay, send_record, is_replay_due, forget_record,
}
use multisensory_device.AppController.Durable.{puback, acked, replay_ack}

module _ (sd : SdCard) (esp : EspMqtt) (now sent_ms : ℕ) (a : AppController sd esp) where
  replay_in_flight :
      (found : Peeked)
      → has_pending_telemetry a.secure_mqtt.slot ≡ false
      → has_pending_telemetry (process_replay sd esp now sent_ms a).secure_mqtt.slot ≡ true
      → (peek sd 2048 a.offline_queue a.card).0 ≡ some found
      → (is_replay_due sd esp now a ≡ true)
        × ((process_replay sd esp now sent_ms a).secure_mqtt.slot.pending_token
            ≡ replay_token found.record_id)
        × (esp.enqueue a.client a.secure_mqtt.topics.telemetry found.payload 1 false ≡ (
          (process_replay sd esp now sent_ms a).secure_mqtt.slot.pending_message_id,
          (process_replay sd esp now sent_ms a).client,
        ))
  unfolding process_replay send_record Publish.publish_telemetry Publish.publish_to
  replay_in_flight found n p e =
      (ground (arith, n, p), ground (arith, n, p, e), ground (arith, n, p, e))

  -- If a turn puts a message in flight where none was, and `peek` gave a record whose id is below 2 ^ 31,
  -- then the client was connected and a record was due, and what the library took, under the id that is now
  -- awaited, is the payload that `peek` gave, on the telemetry topic with quality of service 1 and not
  -- retained. Its PUBACK then makes the next turn acknowledge this very record in the spool.
  pub replayed_record_acknowledged :
      (at : ℕ) (found : Peeked)
      → has_pending_telemetry a.secure_mqtt.slot ≡ false
      → has_pending_telemetry (process_replay sd esp now sent_ms a).secure_mqtt.slot ≡ true
      → (peek sd 2048 a.offline_queue a.card).0 ≡ some found
      → found.record_id ≤ record_id_mask
      → let a' = process_replay sd esp now sent_ms a in
        let later = acked sd esp at a' in
        (is_replay_due sd esp now a ≡ true)
        × (a'.secure_mqtt.slot.pending_token ≡ replay_token found.record_id)
        × (esp.enqueue a.client a.secure_mqtt.topics.telemetry found.payload 1 false
            ≡ (a'.secure_mqtt.slot.pending_message_id, a'.client))
        × (later.offline_queue ≡ (acknowledge sd found.record_id a'.offline_queue a'.card).1)
        × (later.card ≡ (acknowledge sd found.record_id a'.offline_queue a'.card).2)
        × (later.mqtt_status.last_publish_ok ≡ true)
  replayed_record_acknowledged at found n p e h =
      let a' = process_replay sd esp now sent_ms a in
      let (due, token, sent) = replay_in_flight found n p e in
      let (is_replay, id, _) = token_round_trip found.record_id 0 h in
      let ack = replay_ack sd esp at a' (rw (token, is_replay)) in
      let same : record_id_from_token a'.secure_mqtt.slot.pending_token ≡ found.record_id =
        rw (token, id) in
      (due, token, sent, rw (sym same, ack.0), rw (sym same, ack.1), ack.2)

-- As long as no acknowledgement waits, PUBACKs of other messages leave the spool and the card as
-- they are.
pub foreign_puback_spares_spool :
    (sd : SdCard) (esp : EspMqtt) (a : AppController sd esp) (id : ℤ) (at : ℕ)
    → a.secure_mqtt.slot.ack_ready ≡ false
    → id ≢ a.secure_mqtt.slot.pending_message_id
    → process_ack sd esp (puback id at a) ≡ a
unfolding process_ack forget_record handle_published take_telemetry_ack
foreign_puback_spares_spool sd esp a id at r ne =
    let own = a.secure_mqtt.slot.pending_message_id in
    let foreign : same_int id own ≡ false = ground (arith, ne, (same_int_iff id own).0) in
    ground (arith, foreign, r)
