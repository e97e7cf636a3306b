-- ===== src/SecureMqtt/History.antt =====
-- Any history of calls and events.
use multisensory_device.Base.{
  ℕ, ◌+◌, ◌≤◌, ◌≡◌, Bool, true, false, ◌&&◌, Option, none, some, List, [], ◌∷◌, arith, ◌==◌,
  if◌then◌else◌, All, Bool-cases, inl, inr, ap, sym,
}
use multisensory_device.Base.Int.{pos, negsuc, is_negative, same_int, same_int_iff}
use multisensory_device.SecureMqtt.{
  EspMqtt, Slot, SecureMqtt, has_pending_telemetry, expire_pending, handle_published,
  take_telemetry_ack,
}
use multisensory_device.SecureMqtt.Publish.{publish_telemetry, publish_to, update}
use multisensory_device.SecureMqtt.Events.{
  Event, connected, disconnected, published, incoming, error, other, handle_event, handle_connected,
  take_command,
}

-- What happens to the client: the main loop's calls, and the library's events.
pub data Action : Type 0 where
  turn : ℕ → Bool → Action
  event : ℕ → Event → Action
  publish : List ℕ → ℕ → ℕ → Action
  take_ack : Action
  take_received : ℕ → Action

-- The client, with the tokens of the telemetry that it took and of the acknowledgements it gave out.
pub record World (esp : EspMqtt) : Type 0 where
  pub mqtt : SecureMqtt
  pub client : esp.Client
  pub sent : List ℕ
  pub acked : List ℕ

module _ (esp : EspMqtt) where
  abbrev publishes : ℕ → Bool × SecureMqtt × esp.Client → World esp → World esp
  publishes token (false, m, c) w = record w { mqtt = m; client = c }
  publishes token (true, m, c) w = record w { mqtt = m; client = c; sent = token ∷ w.sent }

  abbrev takes : Option (ℕ × ℕ) × Slot → World esp → World esp
  takes (none, s) w = record w { mqtt = record (w.mqtt) { slot = s } }
  takes (some (token, at), s) w = record w {
    mqtt = record (w.mqtt) { slot = s };
    acked = token ∷ w.acked;
  }

  unfoldable pub step : Action → World esp → World esp
  step (turn now ready) w =
      let (m, c) = update esp now ready w.mqtt w.client in record w { mqtt = m; client = c }
  step (event now e) w =
      let (m, c) = handle_event esp now e w.mqtt w.client in record w { mqtt = m; client = c }
  step (publish payload token millis) w =
      publishes token (publish_telemetry esp payload token millis w.mqtt w.client) w
  step take_ack w = takes (take_telemetry_ack w.mqtt.slot) w
  step (take_received size) w = record w {
    mqtt = record (w.mqtt) { inbox = (take_command size w.mqtt.inbox).1 };
  }

  unfoldable pub run : List Action → World esp → World esp
  run [] w = w
  run (a ∷ rest) w = run rest (step a w)

abbrev pub count : ℕ → List ℕ → ℕ
count t [] = 0
count t (x ∷ xs) = (if x == t then 1 else 0) + count t xs

abbrev one_if : Bool → ℕ
one_if b = if b then 1 else 0

-- The acknowledgement of `t` that waits to be taken, and the message `t` in flight.
unfoldable balance : ℕ → Slot → ℕ
balance t s =
    one_if (s.ack_ready && s.acknowledged_token == t)
    + one_if (has_pending_telemetry s && s.pending_token == t)

-- The library numbers messages by natural numbers.
abbrev pub IsNumbered : Action → Type 0
IsNumbered (event now (published (negsuc n))) = ⊥
IsNumbered _ = Unit {0}

balance-handle_published :
    (t n now : ℕ) (s : Slot) → balance t (handle_published (pos n) now s) ≤ balance t s
unfolding balance handle_published
balance-handle_published t n now s = elim (Bool-cases (same_int (pos n) s.pending_message_id)) [
  | inl e ↦
      (let own : pos n ≡ s.pending_message_id = (same_int_iff (pos n) s.pending_message_id).0 e in
        let p : is_negative s.pending_message_id ≡ false = ap is_negative (sym own) in
        ground (arith, e, p))
  | inr e ↦ ground (arith, e)
]

balance-expire_pending : (t now : ℕ) (s : Slot) → balance t (expire_pending now s) ≤ balance t s
unfolding balance expire_pending
balance-expire_pending t now s = ground arith

fresh-balance :
    (t : ℕ) (s : Slot) → has_pending_telemetry s ≡ false → s.ack_ready ≡ false → balance t s ≡ 0
unfolding balance
fresh-balance t s p a = ground (arith, p, a)

module _ (esp : EspMqtt) (t : ℕ) where
  abbrev acked_count : Option (ℕ × ℕ) → ℕ
  acked_count none = 0
  acked_count (some (token, at)) = one_if (token == t)

  abbrev sent_count : ℕ → Bool → ℕ
  sent_count token sent = one_if (sent && token == t)

  balance-take_telemetry_ack :
      (s : Slot)
      → acked_count (take_telemetry_ack s).0 + balance t (take_telemetry_ack s).1 ≤ balance t s
  unfolding balance take_telemetry_ack
  balance-take_telemetry_ack s = ground arith

  balance-publish_telemetry :
      (payload : List ℕ) (token millis : ℕ) (m : SecureMqtt) (c : esp.Client)
      → let (sent, m', _) = publish_telemetry esp payload token millis m c in
        balance t m'.slot ≤ sent_count token sent + balance t m.slot
  unfolding balance publish_telemetry publish_to
  balance-publish_telemetry payload token millis m c = ground arith

  abbrev IsBalanced : World esp → Type 0
  IsBalanced w = count t w.acked + balance t w.mqtt.slot ≤ count t w.sent

  takes-IsBalanced :
      (r : Option (ℕ × ℕ) × Slot) (w : World esp)
      → acked_count r.0 + balance t r.1 ≤ balance t w.mqtt.slot
      → IsBalanced w
      → IsBalanced (takes esp r w)
  takes-IsBalanced (none, s) w k h = ground (arith, k, h)
  takes-IsBalanced (some (token, at), s) w k h = ground (arith, k, h)

  publishes-IsBalanced :
      (r : Bool × SecureMqtt × esp.Client) (token : ℕ) (w : World esp)
      → balance t r.1.slot ≤ sent_count token r.0 + balance t w.mqtt.slot
      → IsBalanced w
      → IsBalanced (publishes esp token r w)
  publishes-IsBalanced (false, m, c) token w k h = ground (arith, k, h)
  publishes-IsBalanced (true, m, c) token w k h = ground (arith, k, h)

  step-IsBalanced :
      (a : Action) (w : World esp) → IsNumbered a → IsBalanced w → IsBalanced (step esp a w)
  unfolding step handle_event handle_connected update
  step-IsBalanced (turn now ready) w n h = ground (arith, balance-expire_pending t now w.mqtt.slot)
  step-IsBalanced (event now (published (pos k))) w n h =
      ground (arith, balance-handle_published t k now w.mqtt.slot)
  step-IsBalanced (event now (published (negsuc k))) w n h = elim n [ ]
  step-IsBalanced (event now connected) w n h = h
  step-IsBalanced (event now disconnected) w n h = h
  step-IsBalanced (event now (incoming e)) w n h = h
  step-IsBalanced (event now (error e)) w n h = h
  step-IsBalanced (event now other) w n h = h
  step-IsBalanced (publish payload token millis) w n h =
      publishes-IsBalanced (publish_telemetry esp payload token millis w.mqtt w.client) token w
        (balance-publish_telemetry payload token millis w.mqtt w.client) h
  step-IsBalanced take_ack w n h =
      takes-IsBalanced (take_telemetry_ack w.mqtt.slot) w (balance-take_telemetry_ack w.mqtt.slot) h
  step-IsBalanced (take_received size) w n h = h

  run-IsBalanced :
      (actions : List Action) (w : World esp)
      → All IsNumbered actions
      → IsBalanced w
      → IsBalanced (run esp actions w)
  unfolding run
  run-IsBalanced [] w n h = h
  run-IsBalanced (a ∷ rest) w n h =
      run-IsBalanced rest (step esp a w) n.1 (step-IsBalanced a w n.0 h)

-- In every history of calls and events that starts with nothing in flight, no acknowledgement and empty
-- lists, each token is acknowledged to the application at most as often as the client took a publication with it.
-- The library numbers its messages by natural numbers.
pub acked_at_most_sent :
    (esp : EspMqtt) (t : ℕ) (actions : List Action) (m : SecureMqtt) (c : esp.Client)
    → All IsNumbered actions
    → has_pending_telemetry m.slot ≡ false
    → m.slot.ack_ready ≡ false
    → let w = run esp actions record { mqtt = m; client = c; sent = []; acked = [] } in
      count t w.acked ≤ count t w.sent
acked_at_most_sent esp t actions m c n p a =
    let start : World esp = record { mqtt = m; client = c; sent = []; acked = [] } in
    ground
      (arith, run-IsBalanced esp t actions start n (ground (arith, fresh-balance t m.slot p a)))
