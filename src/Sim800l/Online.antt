-- ===== src/Sim800l/Online.antt =====
-- What the states stand for, in every run of the modem.
use multisensory_device.Base.{
  ℕ, ◌≤◌, ◌≡◌, refl, Bool, true, false, not, ◌||◌, List, [], ◌∷◌, arith, Bool-cases, inl, inr,
}
use multisensory_device.Backoff.{reached}
use multisensory_device.Sim800l.{
  TinyGsm, State, idle, at_sync, sim_check, registering, gprs_connecting, online, at_ready, backoff,
  Sim800l, is_idle, begin, schedule_backoff, update_signal, sync_step, sim_step, register_step,
  connect_step, online_step, ready_step, state_step, perform_step, update,
}

abbrev is_online : State → Bool
is_online online = true
is_online _ = false

-- A connection is reported in the state `online` alone, and the delay is within its limits.
abbrev pub IsSound : Sim800l → Type 0
IsSound s =
    (is_online s.state ≡ s.status.gprs_connected) × (5000 ≤ s.backoff_ms) × (s.backoff_ms ≤ 30000)

abbrev is_waiting : ℕ → Sim800l → Bool
is_waiting now s = is_idle s.state || not (reached now s.next_action_ms)

module _ (tiny : TinyGsm) (real_pin : Bool) where
  state_step-IsSound :
      (state : State) (now : ℕ) (s : Sim800l) (g : tiny.Gsm)
      → s.state ≡ state
      → IsSound s
      → IsSound (state_step tiny real_pin state now s g).0
  unfolding state_step sync_step sim_step register_step connect_step online_step ready_step
      update_signal schedule_backoff
  state_step-IsSound idle now s g e h = h
  state_step-IsSound at_sync now s g e (p, q, r) =
      (ground (arith, e, p), ground (arith, q, r), ground (arith, q, r))
  state_step-IsSound sim_check now s g e (p, q, r) =
      (ground (arith, e, p), ground (arith, q, r), ground (arith, q, r))
  state_step-IsSound registering now s g e (p, q, r) =
      (ground (arith, e, p), ground (arith, q, r), ground (arith, q, r))
  state_step-IsSound gprs_connecting now s g e (p, q, r) =
      (ground (arith, e, p), ground (arith, q, r), ground (arith, q, r))
  state_step-IsSound online now s g e (p, q, r) =
      (ground (arith, e, p), ground (arith, q, r), ground (arith, q, r))
  state_step-IsSound at_ready now s g e (p, q, r) =
      (ground (arith, e, p), ground (arith, q, r), ground (arith, q, r))
  state_step-IsSound backoff now s g e (p, q, r) =
      (ground (arith, e, p), ground (arith, q, r), ground (arith, q, r))

  update-IsSound :
      (now : ℕ) (s : Sim800l) (g : tiny.Gsm) → IsSound s → IsSound (update tiny real_pin now s g).0
  unfolding update perform_step
  update-IsSound now s g h = elim (Bool-cases (is_waiting now s)) [
    | inl e ↦ rw e h
    | inr e ↦ rw e (state_step-IsSound s.state now s g refl h)
  ]

  -- The object after `update` at each of the given moments.
  unfoldable pub after : List ℕ → Sim800l → tiny.Gsm → Sim800l
  after [] s g = s
  after (now ∷ later) s g = let (s1, g1) = update tiny real_pin now s g in after later s1 g1

  after-IsSound :
      (moments : List ℕ) (s : Sim800l) (g : tiny.Gsm) → IsSound s → IsSound (after moments s g)
  unfolding after
  after-IsSound [] s g h = h
  after-IsSound (now ∷ later) s g h =
      let (s1, g1) = update tiny real_pin now s g in
      after-IsSound later s1 g1 (update-IsSound now s g h)

  -- However the modem answers, after `begin` and any number of calls of `update` a connection is reported
  -- exactly in the state `Online`, and the delay after a failure lies between five seconds and half a
  -- minute.
  pub connected_iff_online :
      (at_only real_apn : Bool) (millis : ℕ) (moments : List ℕ) (s : Sim800l) (g : tiny.Gsm)
      → IsSound (after moments (begin at_only real_apn millis s) g)
  unfolding begin
  connected_iff_online at_only real_apn millis moments s g =
      after-IsSound moments (begin at_only real_apn millis s) g (refl, omega arith, omega arith)
