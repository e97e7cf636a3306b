-- ===== src/Sim800l.antt =====
-- communication/SIM800LModem.h and .cpp: the state machine that brings the cellular modem online. A method
-- takes and returns the object together with the state of the modem and of its two clients.
pub mod Online
mod Tests
use multisensory_device.Base.{
  ℕ, ◌+◌, ◌-◌, ◌*◌, ◌%◌, Bool, true, false, not, ◌&&◌, ◌||◌, List, [], ltb, leb, ◌==◌,
  if◌then◌else◌, take, u32_mod, add32, elapsed,
}
use multisensory_device.Base.Int.{ℤ, pos, negsuc}
use multisensory_device.Config.{
  sim800_action_interval_ms, sim800_status_interval_ms, reconnect_backoff_min_ms,
  reconnect_backoff_max_ms,
}
use multisensory_device.Backoff.{reached}

-- What is used of TinyGSM, which is not part of the repository: each call may change the modem. SIM_READY
-- is `true`. APN, user name, password and PIN are the configured ones.
pub record TinyGsm : Type 1 where
  pub Gsm : Type 0
  pub test_at : Gsm → Bool × Gsm
  pub modem_name : Gsm → List ℕ × Gsm
  pub is_sim_ready : Gsm → Bool × Gsm
  pub sim_unlock : Gsm → Gsm
  pub is_network_connected : Gsm → Bool × Gsm
  pub operator_name : Gsm → List ℕ × Gsm
  pub gprs_connect : Gsm → Bool × Gsm
  pub local_ip : Gsm → List ℕ × Gsm
  pub is_gprs_connected : Gsm → Bool × Gsm
  pub gprs_disconnect : Gsm → Gsm
  pub signal_quality : Gsm → ℤ × Gsm
  pub stop_plain_client : Gsm → Gsm
  pub stop_secure_client : Gsm → Gsm

pub data State : Type 0 where
  idle at_sync sim_check registering gprs_connecting online at_ready backoff : State

pub record CellularStatus : Type 0 where
  pub modem_present : Bool
  pub sim_ready : Bool
  pub network_registered : Bool
  pub gprs_connected : Bool
  pub signal_quality : ℤ
  pub signal_dbm : ℤ
  pub last_error : ℕ
  pub updated_at_ms : ℕ
  pub modem_name : List ℕ
  pub operator_name : List ℕ
  pub local_ip : List ℕ

pub record Sim800l : Type 0 where
  pub status : CellularStatus
  -- mode == SIM800LMode::AtOnly
  pub at_only : Bool
  pub state : State
  pub configured : Bool
  pub next_action_ms : ℕ
  pub last_status_ms : ℕ
  pub backoff_ms : ℕ

abbrev fresh_status : CellularStatus
fresh_status = record {
  modem_present = false;
  sim_ready = false;
  network_registered = false;
  gprs_connected = false;
  signal_quality = negsuc 0;
  signal_dbm = pos 0;
  last_error = 0;
  updated_at_ms = 0;
  modem_name = [];
  operator_name = [];
  local_ip = [];
}

-- `real_apn` is hasRealValue(CELLULAR_APN).
unfoldable pub begin : Bool → Bool → ℕ → Sim800l → Sim800l
begin at_only real_apn millis s = record s {
  at_only = at_only;
  configured = at_only || real_apn;
  state = at_sync;
  next_action_ms = millis;
  backoff_ms = reconnect_backoff_min_ms;
  status = fresh_status;
}

unfoldable pub schedule_backoff : ℕ → ℕ → Sim800l → Sim800l
schedule_backoff now code s =
    let doubled = s.backoff_ms * 2 % u32_mod in
    record s {
      status = record (s.status) { gprs_connected = false; local_ip = []; last_error = code };
      state = backoff;
      next_action_ms = add32 now s.backoff_ms;
      backoff_ms =
          if ltb reconnect_backoff_max_ms doubled then reconnect_backoff_max_ms else doubled;
    }

abbrev goes : State → ℕ → Sim800l → Sim800l
goes state at s = record s { state = state; next_action_ms = at }

abbrev shown_quality : ℤ → ℤ
shown_quality (pos q) = if leb q 31 then pos q else negsuc 0
shown_quality (negsuc q) = negsuc 0

-- -113 + 2 * quality, which is negative for a quality up to 31.
abbrev shown_dbm : ℤ → ℤ
shown_dbm (pos q) = if leb q 31 then negsuc (112 - 2 * q) else pos 0
shown_dbm (negsuc q) = pos 0

abbrev pub is_idle : State → Bool
is_idle idle = true
is_idle _ = false

module _ (tiny : TinyGsm) (real_pin : Bool) where
  open tiny use {
    Gsm, test_at, is_sim_ready, sim_unlock, is_network_connected, gprs_connect, is_gprs_connected,
    gprs_disconnect, stop_plain_client, stop_secure_client,
  }

  unfoldable pub update_signal : ℕ → Sim800l → Gsm → Sim800l × Gsm
  update_signal now s g =
      let (quality, g1) = tiny.signal_quality g in
      if not (s.last_status_ms == 0) && ltb (elapsed now s.last_status_ms) sim800_status_interval_ms
      then (s, g)
      else (
        record s {
          last_status_ms = now;
          status = record (s.status) {
            signal_quality = shown_quality quality;
            signal_dbm = shown_dbm quality;
          };
        },
        g1,
      )

  unfoldable pub sync_step : ℕ → Sim800l → Gsm → Sim800l × Gsm
  sync_step now s g =
      let (answered, g1) = test_at g in
      let (name, g2) = tiny.modem_name g1 in
      let present = record s {
        status = record (s.status) {
          modem_present = true;
          last_error = 0;
          modem_name = take 31 name;
        };
      } in
      let absent = record s { status = record (s.status) { modem_present = false } } in
      if answered then (goes sim_check now present, g2) else (schedule_backoff now 1 absent, g1)

  -- The SIM's state, after an attempt to unlock it where it is not ready.
  unfoldable pub checked_sim : Gsm → Bool × Gsm
  checked_sim g =
      let (ready, g1) = is_sim_ready g in
      if not ready && real_pin then is_sim_ready (sim_unlock g1) else (ready, g1)

  unfoldable pub sim_step : ℕ → Sim800l → Gsm → Sim800l × Gsm
  sim_step now s g =
      let (ready, g1) = checked_sim g in
      let (s1, g2) =
        update_signal now (record s { status = record (s.status) { sim_ready = ready } }) g1 in
      if not ready
      then (schedule_backoff now 2 s1, g2)
      else if s.at_only
      then (goes at_ready (add32 now sim800_status_interval_ms) s1, g2)
      else (goes registering now s1, g2)

  unfoldable pub register_step : ℕ → Sim800l → Gsm → Sim800l × Gsm
  register_step now s g =
      let (registered, g1) = is_network_connected g in
      let (s1, g2) =
        update_signal now
          (record s { status = record (s.status) { network_registered = registered } }) g1 in
      let (name, g3) = tiny.operator_name g2 in
      if registered
      then (
        goes gprs_connecting now
            (record s1 { status = record (s1.status) { operator_name = take 23 name } }),
        g3,
      )
      else (record s1 { next_action_ms = add32 now sim800_action_interval_ms }, g2)

  unfoldable pub connect_step : ℕ → Sim800l → Gsm → Sim800l × Gsm
  connect_step now s g =
      let (connected, g1) = gprs_connect g in
      let (ip, g2) = tiny.local_ip g1 in
      if not s.configured
      then (schedule_backoff now 3 s, g)
      else if connected
      then (
        record s {
          status = record (s.status) { gprs_connected = true; local_ip = take 23 ip };
          state = online;
          next_action_ms = add32 now sim800_status_interval_ms;
          backoff_ms = reconnect_backoff_min_ms;
        },
        g2,
      )
      else (schedule_backoff now 4 s, g1)

  unfoldable pub online_step : ℕ → Sim800l → Gsm → Sim800l × Gsm
  online_step now s g =
      let (registered, g1) = is_network_connected g in
      let (connected, g2) = is_gprs_connected g1 in
      let seen = record s {
        status = record (s.status) { network_registered = registered; gprs_connected = connected };
      } in
      let (s1, g3) = update_signal now seen g2 in
      if not registered || not connected
      then (schedule_backoff now 5 s1, gprs_disconnect (stop_secure_client (stop_plain_client g3)))
      else (record s1 { next_action_ms = add32 now sim800_status_interval_ms }, g3)

  unfoldable pub ready_step : ℕ → Sim800l → Gsm → Sim800l × Gsm
  ready_step now s g =
      let (ready, g1) = is_sim_ready g in
      let (s1, g2) =
        update_signal now (record s { status = record (s.status) { sim_ready = ready } }) g1 in
      (record s1 { next_action_ms = add32 now sim800_status_interval_ms }, g2)

  -- The switch over the state.
  unfoldable pub state_step : State → ℕ → Sim800l → Gsm → Sim800l × Gsm
  state_step at_sync now s g = sync_step now s g
  state_step sim_check now s g = sim_step now s g
  state_step registering now s g = register_step now s g
  state_step gprs_connecting now s g = connect_step now s g
  state_step online now s g = online_step now s g
  state_step at_ready now s g = ready_step now s g
  state_step backoff now s g = (goes at_sync now s, g)
  state_step idle now s g = (s, g)

  unfoldable pub perform_step : ℕ → Sim800l → Gsm → Sim800l × Gsm
  perform_step now s g =
      let (s1, g1) = state_step s.state now s g in
      (record s1 { status = record (s1.status) { updated_at_ms = now } }, g1)

  unfoldable pub update : ℕ → Sim800l → Gsm → Sim800l × Gsm
  update now s g =
      if is_idle s.state || not (reached now s.next_action_ms) then (s, g) else perform_step now s g
