-- ===== src/AppController/Pacing.antt =====
-- The spool's records are sent at intervals, whatever happens between the turns of the main loop.
use multisensory_device.Base.{
  ℕ, ◌<◌, ◌≡◌, ◌∙◌, refl, true, List, [], ◌∷◌, arith, u32_mod, add32, elapsed, All,
}
use multisensory_device.Storage.SdCard.{SdCard}
use multisensory_device.SecureMqtt.{EspMqtt, take_telemetry_ack}
use multisensory_device.AppController.{AppController}
use multisensory_device.AppController.Commands.{Json, Names, Stamp}
use multisensory_device.AppController.Mqtt.{
  mirror_status, process_ack, forget_record, process_replay, send_record, is_replay_due,
  process_command, process_secure_mqtt,
}

-- What happens to the controller: a turn for MQTT so many milliseconds after a fixed time, with the clock that
-- is read later, or anything else, which leaves it in any state but for the time of the last replay, which
-- no other code sets.
pub data Step (sd : SdCard) (esp : EspMqtt) : Type 0 where
  turn : ℕ → ℕ → Step sd esp
  others : AppController sd esp → Step sd esp

module _ (sd : SdCard) (esp : EspMqtt) (json : Json) (names : Names) (stamp : Stamp) (now : ℕ) where
  unfoldable pub step : Step sd esp → AppController sd esp → AppController sd esp
  step (turn wait sent_ms) a =
      process_secure_mqtt sd esp json names stamp (add32 now wait) sent_ms a
  step (others b) a = record b { last_replay_attempt_ms = a.last_replay_attempt_ms }

  unfoldable pub after : List (Step sd esp) → AppController sd esp → AppController sd esp
  after [] a = a
  after (s ∷ steps) a = after steps (step s a)

  -- The turns are in the 250 milliseconds that follow.
  abbrev pub IsSoon : Step sd esp → Type 0
  IsSoon (turn wait sent_ms) = wait < 250
  IsSoon (others b) = Unit {0}

  before_replay :
      (a : AppController sd esp)
      → (process_ack sd esp (mirror_status sd esp a)).last_replay_attempt_ms
        ≡ a.last_replay_attempt_ms
  unfolding process_ack mirror_status forget_record take_telemetry_ack
  before_replay a = ground arith

  command_last :
      (a : AppController sd esp)
      → (process_command sd esp json names stamp a).last_replay_attempt_ms
        ≡ a.last_replay_attempt_ms
  unfolding process_command
  command_last a = ground arith

  due_last :
      (at sent_ms : ℕ) (a : AppController sd esp)
      → is_replay_due sd esp at a ≡ true
      → (process_replay sd esp at sent_ms a).last_replay_attempt_ms ≡ at
  unfolding process_replay send_record
  due_last at sent_ms a h = ground (arith, h)

  not_due :
      (at sent_ms : ℕ) (a : AppController sd esp)
      → elapsed at a.last_replay_attempt_ms < 250
      → process_replay sd esp at sent_ms a ≡ a
  unfolding process_replay
  not_due at sent_ms a h = ground (arith, h)

  soon :
      (wait last : ℕ)
      → now < u32_mod
      → wait < 250
      → last ≡ now
      → elapsed (add32 now wait) last < 250
  soon wait last small h e = rw e (omega arith)

  -- A turn in this time acknowledges and answers, and does nothing else.
  turn_soon :
      (wait sent_ms : ℕ) (a : AppController sd esp)
      → now < u32_mod
      → wait < 250
      → a.last_replay_attempt_ms ≡ now
      → process_secure_mqtt sd esp json names stamp (add32 now wait) sent_ms a
        ≡ process_command sd esp json names stamp (process_ack sd esp (mirror_status sd esp a))
  unfolding process_secure_mqtt
  turn_soon wait sent_ms a small h e =
      let before = process_ack sd esp (mirror_status sd esp a) in
      rw
        (not_due (add32 now wait) sent_ms before
          (soon wait before.last_replay_attempt_ms small h (before_replay a ∙ e)))
        refl

  step_last :
      (s : Step sd esp) (a : AppController sd esp)
      → now < u32_mod
      → IsSoon s
      → a.last_replay_attempt_ms ≡ now
      → (step s a).last_replay_attempt_ms ≡ now
  unfolding step
  step_last (turn wait sent_ms) a small h e =
      rw (turn_soon wait sent_ms a small h e)
        (command_last (process_ack sd esp (mirror_status sd esp a)) ∙ before_replay a ∙ e)
  step_last (others b) a small h e = e

  after_last :
      (steps : List (Step sd esp)) (a : AppController sd esp)
      → now < u32_mod
      → All IsSoon steps
      → a.last_replay_attempt_ms ≡ now
      → (after steps a).last_replay_attempt_ms ≡ now
  unfolding after
  after_last [] a small h e = e
  after_last (s ∷ steps) a small h e =
      after_last steps (step s a) small h.1 (step_last s a small h.0 e)

  first_last :
      (sent_ms : ℕ) (a : AppController sd esp)
      → is_replay_due sd esp now (process_ack sd esp (mirror_status sd esp a)) ≡ true
      → (process_secure_mqtt sd esp json names stamp now sent_ms a).last_replay_attempt_ms ≡ now
  unfolding process_secure_mqtt
  first_last sent_ms a due =
      let before = process_ack sd esp (mirror_status sd esp a) in
      command_last (process_replay sd esp now sent_ms before) ∙ due_last now sent_ms before due

  -- After a turn in which a record was due, every turn in the next 250 milliseconds only mirrors the
  -- client's status, takes the acknowledgement that waits, which may remove a record, and answers the command
  -- that waits: it neither looks for a record to send nor marks or sends one. This holds whatever came of the first turn and
  -- whatever the MQTT client, its library, the spool and the card have become since, with any number of
  -- other turns in that time.
  pub process_secure_mqtt-paced :
      (sent_ms wait sent_ms' : ℕ) (steps : List (Step sd esp)) (a : AppController sd esp)
      → now < u32_mod
      → wait < 250
      → All IsSoon steps
      → is_replay_due sd esp now (process_ack sd esp (mirror_status sd esp a)) ≡ true
      → let later = after steps (process_secure_mqtt sd esp json names stamp now sent_ms a) in
        process_secure_mqtt sd esp json names stamp (add32 now wait) sent_ms' later
        ≡ process_command sd esp json names stamp (process_ack sd esp (mirror_status sd esp later))
  process_secure_mqtt-paced sent_ms wait sent_ms' steps a small h soon_all due =
      let first = process_secure_mqtt sd esp json names stamp now sent_ms a in
      turn_soon wait sent_ms' (after steps first) small h
        (after_last steps first small soon_all (first_last sent_ms a due))
