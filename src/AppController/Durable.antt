-- ===== src/AppController/Durable.antt =====
-- A sample is stored before it is sent, and what is sent without being stored never touches the spool.
use multisensory_device.Base.{ℕ, ◌≡◌, ◌∙◌, refl, Bool, true, false, List, arith}
use multisensory_device.Base.Int.{ℤ, same_int, same_int_iff}
use multisensory_device.Storage.SdCard.{SdCard}
use multisensory_device.Storage.OfflineQueue.{OfflineQueue}
use multisensory_device.Storage.OfflineQueue.Intake.{enqueue}
use multisensory_device.Storage.OfflineQueue.Delivery.{acknowledge}
use multisensory_device.OfflineQueuePolicy.{live_token, is_replay_token, record_id_from_token}
use multisensory_device.OfflineQueuePolicy.Tokens.{token_round_trip}
use multisensory_device.SecureMqtt.{
  EspMqtt, has_pending_telemetry, handle_published, take_telemetry_ack,
}
use multisensory_device.SecureMqtt.Publish
use multisensory_device.AppController.{AppController}
use multisensory_device.AppController.Telemetry.{Moment, deliver, try_live, is_deferred}
use multisensory_device.AppController.Mqtt.{process_ack, forget_record}

-- The PUBACK with this id has come.
abbrev pub puback :
    {sd : SdCard} {esp : EspMqtt} → ℤ → ℕ → AppController sd esp → AppController sd esp
puback id at a = record a {
  secure_mqtt = record (a.secure_mqtt) { slot = handle_published id at a.secure_mqtt.slot };
}

module _ (sd : SdCard) (esp : EspMqtt) (at : ℕ) (a : AppController sd esp) where
  -- The PUBACK of the message in flight, and the turn of the main loop after it.
  abbrev pub acked : AppController sd esp
  acked = process_ack sd esp (puback a.secure_mqtt.slot.pending_message_id at a)

  pub live_ack :
      is_replay_token a.secure_mqtt.slot.pending_token ≡ false
      → (acked.offline_queue ≡ a.offline_queue)
        × (acked.card ≡ a.card)
        × (acked.mqtt_status.last_publish_ok ≡ true)
        × (acked.mqtt_status.last_acknowledged_token ≡ a.secure_mqtt.slot.pending_token)
  unfolding process_ack forget_record handle_published take_telemetry_ack
  live_ack h =
      let id = a.secure_mqtt.slot.pending_message_id in
      let own : same_int id id ≡ true = (same_int_iff id id).1 refl in ground (arith, own, h)

  pub replay_ack :
      is_replay_token a.secure_mqtt.slot.pending_token ≡ true
      → let id = record_id_from_token a.secure_mqtt.slot.pending_token in
        (acked.offline_queue ≡ (acknowledge sd id a.offline_queue a.card).1)
        × (acked.card ≡ (acknowledge sd id a.offline_queue a.card).2)
        × (acked.mqtt_status.last_publish_ok ≡ true)
        × (acked.mqtt_status.last_acknowledged_token ≡ a.secure_mqtt.slot.pending_token)
  unfolding process_ack forget_record handle_published take_telemetry_ack
  replay_ack h =
      let id = a.secure_mqtt.slot.pending_message_id in
      let own : same_int id id ≡ true = (same_int_iff id id).1 refl in ground (arith, own, h)

module _ (sd : SdCard) (esp : EspMqtt) (t : Moment) (payload : List ℕ) (sequence : ℕ)
    (a : AppController sd esp) where
  abbrev spooled : Bool × OfflineQueue × sd.Fs
  spooled =
      enqueue sd payload t.now_ms t.epoch_seconds (is_deferred sd esp a) a.offline_queue a.card

  -- A sample that the spool takes is not handed to the MQTT client: the client's state, the library's and the
  -- status stay, and the spool and the card are what `enqueue` made them.
  pub deliver_stored :
      a.offline_queue.ready ≡ true
      → spooled.0 ≡ true
      → deliver sd esp t payload sequence a
        ≡ record a { offline_queue = spooled.1; card = spooled.2 }
  unfolding deliver
  deliver_stored r k = ground (arith, r, k)

  deliver_in_flight :
      has_pending_telemetry a.secure_mqtt.slot ≡ false
      → has_pending_telemetry (deliver sd esp t payload sequence a).secure_mqtt.slot ≡ true
      → (deliver sd esp t payload sequence a).secure_mqtt.slot.pending_token ≡ live_token sequence
  unfolding deliver try_live Publish.publish_telemetry Publish.publish_to
  deliver_in_flight h p = ground (arith, h, p)

  -- If the delivery of a sample leaves a message in flight where none was, the message is a live one, and its
  -- PUBACK changes neither the spool nor the card.
  pub live_puback_spares_spool :
      (at : ℕ)
      → has_pending_telemetry a.secure_mqtt.slot ≡ false
      → has_pending_telemetry (deliver sd esp t payload sequence a).secure_mqtt.slot ≡ true
      → let a' = deliver sd esp t payload sequence a in
        let later = acked sd esp at a' in
        (a'.secure_mqtt.slot.pending_token ≡ live_token sequence)
        × (later.offline_queue ≡ a'.offline_queue)
        × (later.card ≡ a'.card)
        × (later.mqtt_status.last_publish_ok ≡ true)
        × (later.mqtt_status.last_acknowledged_token ≡ live_token sequence)
  live_puback_spares_spool at h p =
      let token = deliver_in_flight h p in
      let live = (token_round_trip 0 sequence (omega arith)).2 in
      let ack = live_ack sd esp at (deliver sd esp t payload sequence a) (rw (token, live)) in
      (token, ack.0, ack.1, ack.2, ack.3 ∙ token)
