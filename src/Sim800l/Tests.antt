-- ===== src/Sim800l/Tests.antt =====
-- The theorem on the modem, over one that answers everything with success.
use multisensory_device.Base.{ℕ, true, false, List, [], ◌∷◌}
use multisensory_device.Base.Text.{codes}
use multisensory_device.Base.Int.{pos, negsuc}
use multisensory_device.Sim800l.{TinyGsm, idle, Sim800l, begin}
use multisensory_device.Sim800l.Online.{IsSound, after, connected_iff_online}

abbrev modem : TinyGsm
modem = record {
  Gsm = ℕ;
  test_at = λ g. (true, g);
  modem_name = λ g. (codes "SIM800L", g);
  is_sim_ready = λ g. (true, g);
  sim_unlock = λ g. g;
  is_network_connected = λ g. (true, g);
  operator_name = λ g. (codes "net", g);
  gprs_connect = λ g. (true, g);
  local_ip = λ g. (codes "10.0.0.2", g);
  is_gprs_connected = λ g. (true, g);
  gprs_disconnect = λ g. g;
  signal_quality = λ g. (pos 20, g);
  stop_plain_client = λ g. g;
  stop_secure_client = λ g. g;
}

abbrev off : Sim800l
off = record {
  status = record {
    modem_present = false;
    sim_ready = false;
    network_registered = false;
    gprs_connected = false;
    signal_quality = negsuc 0;
    signal_dbm = pos 0;
    last_error = 0;
    updated_at_ms = 0;
    modem_name = [];
    operator_name = [];
    local_ip = [];
  };
  at_only = false;
  state = idle;
  configured = false;
  next_action_ms = 0;
  last_status_ms = 0;
  backoff_ms = 5000;
}

abbrev moments : List ℕ
moments = 1000 ∷ 1100 ∷ 1200 ∷ 1300 ∷ []

connected_iff_online_example : IsSound (after modem true moments (begin false true 1000 off) 0)
connected_iff_online_example = connected_iff_online modem true false true 1000 moments off 0
