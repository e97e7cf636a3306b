-- ===== src/MqttClient/Tests.antt =====
-- A run of the client at a broker that refuses.
use multisensory_device.Base.{ℕ, ◌≡◌, refl, true, false}
use multisensory_device.Base.Text.{codes}
use multisensory_device.MqttClient.{PubSub, MqttClient, connect}

abbrev refusing : PubSub
refusing = record {
  Client = ℕ;
  is_connected = λ _. false;
  set_up = λ c _ _. c;
  disconnect = λ c. c;
  loop = λ c. c;
  connect_anonymous = λ c. (false, c);
  connect_as = λ c _ _. (false, c);
  publish_message = λ c _ _. (false, c);
}

abbrev fresh : MqttClient
fresh = record {
  configured = true;
  has_network_client = true;
  connection = record {
    host = codes "h";
    port = 1883;
    username = codes "u";
    password = codes "p";
    topic = codes "t";
  };
  was_connected = false;
  next_attempt_ms = 0;
  backoff_ms = 5000;
}

refused : ((connect refusing fresh 0).0 ≡ false)
unfolding connect
refused = refl
