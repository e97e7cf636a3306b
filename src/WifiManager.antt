-- ===== src/WifiManager.antt =====
-- communication/WiFiManagerCustom.h and .cpp: the station's connection to the access point. A method takes
-- and returns the object together with the state of the radio.
pub mod Retry
mod Tests
use multisensory_device.Base.{ℕ, Bool, true, false, not, ◌&&◌, leb, if◌then◌else◌, add32, elapsed}
use multisensory_device.Config.{wifi_connect_timeout_ms, reconnect_backoff_min_ms}
use multisensory_device.Backoff.{reached, increase_backoff}

-- What is used of the WiFi library, which is not part of the repository. `set_up` stands for the settings
-- of a start (`persistent`, `mode`, `setAutoReconnect`), `connect` for `begin` with the configured
-- network.
pub record Wifi : Type 1 where
  pub Radio : Type 0
  pub is_connected : Radio → Bool
  pub set_up : Radio → Radio
  pub connect : Radio → Radio
  pub disconnect : Radio → Radio

pub record WifiManager : Type 0 where
  pub configured : Bool
  pub connecting : Bool
  pub was_connected : Bool
  pub attempt_started_ms : ℕ
  pub next_attempt_ms : ℕ
  pub backoff_ms : ℕ

module _ (wifi : Wifi) where
  open wifi use {Radio, is_connected, set_up, connect, disconnect}

  unfoldable pub start_connection : ℕ → WifiManager → Radio → WifiManager × Radio
  start_connection now w r = (record w { attempt_started_ms = now; connecting = true }, connect r)

  -- `real_ssid` is hasRealValue(WIFI_SSID).
  unfoldable pub begin : Bool → ℕ → WifiManager → Radio → Bool × WifiManager × Radio
  begin real_ssid millis w r =
      let (w1, r1) = start_connection millis (record w { configured = true }) (set_up r) in
      if real_ssid then (true, w1, r1) else (false, record w { configured = false }, r)

  unfoldable pub note_loss : ℕ → WifiManager → WifiManager
  note_loss now w =
      if w.was_connected
      then record w { was_connected = false; next_attempt_ms = add32 now w.backoff_ms }
      else w

  unfoldable pub give_up : ℕ → WifiManager → Radio → WifiManager × Radio
  give_up now w r =
      if w.connecting && leb wifi_connect_timeout_ms (elapsed now w.attempt_started_ms)
      then (
        record w {
          connecting = false;
          next_attempt_ms = add32 now w.backoff_ms;
          backoff_ms = increase_backoff w.backoff_ms;
        },
        disconnect r,
      )
      else (w, r)

  unfoldable pub try_again : ℕ → WifiManager → Radio → WifiManager × Radio
  try_again now w r =
      if not w.connecting && reached now w.next_attempt_ms then start_connection now w r else (w, r)

  unfoldable pub update : ℕ → WifiManager → Radio → WifiManager × Radio
  update now w r =
      let (w1, r1) = give_up now (note_loss now w) r in
      if not w.configured
      then (w, r)
      else if is_connected r
      then (
        record w {
          was_connected = true;
          connecting = false;
          backoff_ms = reconnect_backoff_min_ms;
        },
        r,
      )
      else try_again now w1 r1
