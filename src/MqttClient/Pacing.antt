-- ===== src/MqttClient/Pacing.antt =====
-- The delay between two attempts, and the publications.
use multisensory_device.Base.{
  ℕ, ◌≤◌, ◌<◌, ◌≡◌, refl, Bool, true, false, not, arith, ltb, if◌then◌else◌, u32_mod, add32,
}
use multisensory_device.Backoff.{reached, reached-not, increase_backoff}
use multisensory_device.MqttClient.{PubSub, MqttClient, connect, attempt, update}

module _ (pubsub : PubSub) (now : ℕ) (m : MqttClient) (c : pubsub.Client) where
  abbrev waiting : MqttClient
  waiting = record m {
    next_attempt_ms = add32 now m.backoff_ms;
    backoff_ms = increase_backoff m.backoff_ms;
  }

  failed :
      (connect pubsub m c).0 ≡ false → attempt pubsub now m c ≡ (waiting, (connect pubsub m c).1)
  unfolding attempt
  failed f = ground (arith, f)

  next_turn :
      (later : ℕ) (c1 : pubsub.Client) (early : Bool)
      → pubsub.is_connected c1 ≡ false
      → m.configured ≡ true
      → m.has_network_client ≡ true
      → m.was_connected ≡ false
      → reached later (add32 now m.backoff_ms) ≡ not early
      → update pubsub later true waiting c1
        ≡ (if early then (waiting, c1) else attempt pubsub later waiting c1)
  unfolding update
  next_turn later c1 early d g n x e = ground (arith, d, g, n, x, e)

  -- After an attempt of a client that knew of no connection, which fails, the delay grows; the next call
  -- of `update` over a network that is ready and without a connection does nothing before the old delay
  -- is over, and if it comes later, within 2 ^ 31 milliseconds, it is the next attempt.
  pub update_paced :
      (wait : ℕ)
      → (connect pubsub m c).0 ≡ false
      → pubsub.is_connected (connect pubsub m c).1 ≡ false
      → m.configured ≡ true
      → m.has_network_client ≡ true
      → m.was_connected ≡ false
      → m.backoff_ms ≤ 30000
      → now < u32_mod
      → wait < 2147483648
      → let (m1, c1) = attempt pubsub now m c in
        (m1.backoff_ms ≡ increase_backoff m.backoff_ms)
        × (update pubsub (add32 now wait) true m1 c1
            ≡ (if ltb wait m.backoff_ms then (m1, c1) else attempt pubsub (add32 now wait) m1 c1))
  update_paced wait f d g n x b h s =
      let due = reached-not now m.backoff_ms wait h (omega arith) s in
      rw (failed f) (
        refl,
        next_turn (add32 now wait) (connect pubsub m c).1 (ltb wait m.backoff_ms) d g n x due,
      )
