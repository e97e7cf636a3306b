-- ===== src/WifiManager/Tests.antt =====
-- The theorem on delays at an access point that is out of reach.
use multisensory_device.Base.{ℕ, ◌≡◌, refl, true, false, arith, ltb, if◌then◌else◌, add32}
use multisensory_device.Backoff.{increase_backoff}
use multisensory_device.WifiManager.{Wifi, WifiManager, start_connection, update}
use multisensory_device.WifiManager.Retry.{update_waits}

abbrev nowhere : Wifi
nowhere = record {
  Radio = ℕ;
  is_connected = λ _. false;
  set_up = λ r. r;
  connect = λ _. 1;
  disconnect = λ _. 0;
}

abbrev trying : WifiManager
trying = record {
  configured = true;
  connecting = true;
  was_connected = false;
  attempt_started_ms = 1000;
  next_attempt_ms = 0;
  backoff_ms = 5000;
}

update_waits_example :
    let (w1, r1) = update nowhere 13000 trying 1 in
    (r1 ≡ 0)
    × (w1.backoff_ms ≡ increase_backoff 5000)
    × (update nowhere (add32 13000 4999) w1 r1
        ≡ (if ltb 4999 5000 then (w1, r1) else start_connection nowhere (add32 13000 4999) w1 r1))
update_waits_example =
    update_waits nowhere 13000 trying 1 4999 refl refl refl refl (omega arith) (omega arith)
      (omega arith) (omega arith) (omega arith)
