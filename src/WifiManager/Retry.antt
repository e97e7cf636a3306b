-- ===== src/WifiManager/Retry.antt =====
-- The delay between two attempts.
use multisensory_device.Base.{
  ℕ, ◌≤◌, ◌<◌, ◌≡◌, refl, Bool, true, false, not, arith, ltb, if◌then◌else◌, u32_mod, add32,
  elapsed,
}
use multisensory_device.Backoff.{reached, reached-not, increase_backoff}
use multisensory_device.WifiManager.{
  Wifi, WifiManager, start_connection, note_loss, give_up, try_again, update,
}

module _ (wifi : Wifi) (now : ℕ) (w : WifiManager) (r : wifi.Radio) where
  abbrev waiting : WifiManager
  waiting = record w {
    connecting = false;
    was_connected = false;
    next_attempt_ms = add32 now w.backoff_ms;
    backoff_ms = increase_backoff w.backoff_ms;
  }

  not_yet :
      0 < w.backoff_ms
      → w.backoff_ms ≤ 30000
      → now < u32_mod
      → reached now (add32 now w.backoff_ms) ≡ false
  unfolding reached
  not_yet p b h = ground arith

  next_turn :
      (later : ℕ) (r1 : wifi.Radio) (early : Bool)
      → wifi.is_connected r1 ≡ false
      → w.configured ≡ true
      → reached later (add32 now w.backoff_ms) ≡ not early
      → update wifi later waiting r1
        ≡ (if early then (waiting, r1) else start_connection wifi later waiting r1)
  unfolding update note_loss give_up try_again
  next_turn later r1 early d g e = ground (arith, d, g, e)

  given_up :
      w.configured ≡ true
      → wifi.is_connected r ≡ false
      → w.connecting ≡ true
      → 12000 ≤ elapsed now w.attempt_started_ms
      → 0 < w.backoff_ms
      → w.backoff_ms ≤ 30000
      → now < u32_mod
      → update wifi now w r ≡ (waiting, wifi.disconnect r)
  unfolding update note_loss give_up try_again
  given_up c d k l p b h =
      let early : reached now (add32 now w.backoff_ms) ≡ false = not_yet p b h in
      ground (arith, c, d, k, l, early)

  -- After an attempt that took 12 seconds without a connection the radio is told to disconnect, the delay
  -- grows, and as long as no connection comes, the next call of `update` does nothing before the old delay is
  -- over and starts an attempt if it comes later, within 2 ^ 31 milliseconds.
  pub update_waits :
      (wait : ℕ)
      → w.configured ≡ true
      → wifi.is_connected r ≡ false
      → wifi.is_connected (wifi.disconnect r) ≡ false
      → w.connecting ≡ true
      → 12000 ≤ elapsed now w.attempt_started_ms
      → 0 < w.backoff_ms
      → w.backoff_ms ≤ 30000
      → now < u32_mod
      → wait < 2147483648
      → let (w1, r1) = update wifi now w r in
        (r1 ≡ wifi.disconnect r)
        × (w1.backoff_ms ≡ increase_backoff w.backoff_ms)
        × (update wifi (add32 now wait) w1 r1 ≡ (
            if ltb wait w.backoff_ms
            then (w1, r1)
            else start_connection wifi (add32 now wait) w1 r1))
  update_waits wait c d d1 k l p b h s =
      let due = reached-not now w.backoff_ms wait h (omega arith) s in
      rw (given_up c d k l p b h) (
        refl,
        refl,
        next_turn (add32 now wait) (wifi.disconnect r) (ltb wait w.backoff_ms) d1 c due,
      )
