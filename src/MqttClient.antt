-- ===== src/MqttClient.antt =====
-- communication/MQTTClientCustom.h and .cpp: the plain MQTT client of the prototypes. A method takes and
-- returns the object together with the state of the PubSubClient library.
pub mod Pacing
mod Tests
use multisensory_device.Base.{
  ℕ, Bool, true, false, not, ◌&&◌, ◌||◌, List, [], ◌∷◌, ◌++◌, ltb, ◌==◌, if◌then◌else◌, length,
  add32,
}
use multisensory_device.Base.Text.{codes, starts_with}
use multisensory_device.Config.{reconnect_backoff_min_ms}
use multisensory_device.Backoff.{reached, increase_backoff}

-- What is used of PubSubClient, which is not part of the repository. `set_up` stands for the settings
-- of a start, `connect` takes the user name and the password if there is a user name.
pub record PubSub : Type 1 where
  pub Client : Type 0
  pub is_connected : Client → Bool
  pub set_up : Client → List ℕ → ℕ → Client
  pub disconnect : Client → Client
  pub loop : Client → Client
  pub connect_anonymous : Client → Bool × Client
  pub connect_as : Client → List ℕ → List ℕ → Bool × Client
  -- topic, payload; not retained
  pub publish_message : Client → List ℕ → List ℕ → Bool × Client

-- A null pointer is the empty text, which the code treats alike.
pub record MqttConnectionConfig : Type 0 where
  pub host : List ℕ
  pub port : ℕ
  pub username : List ℕ
  pub password : List ℕ
  pub topic : List ℕ

pub record MqttClient : Type 0 where
  pub configured : Bool
  -- _networkClient != nullptr
  pub has_network_client : Bool
  pub connection : MqttConnectionConfig
  pub was_connected : Bool
  pub next_attempt_ms : ℕ
  pub backoff_ms : ℕ

unfoldable pub has_real_value : List ℕ → Bool
has_real_value value = not (length value == 0) && not (starts_with (codes "YOUR_") value)

module _ (pubsub : PubSub) where
  open pubsub use {
    Client, is_connected, set_up, disconnect, loop, connect_anonymous, connect_as, publish_message,
  }

  unfoldable pub begin : MqttConnectionConfig → MqttClient → Client → Bool × MqttClient × Client
  begin connection m c =
      let real =
        has_real_value connection.host
        && ltb 0 connection.port
        && has_real_value connection.topic in
      let m1 = record m { has_network_client = true; connection = connection; configured = real } in
      if real then (true, m1, set_up c connection.host connection.port) else (false, m1, c)

  unfoldable pub connect : MqttClient → Client → Bool × Client
  connect m c =
      if length m.connection.username == 0
      then connect_anonymous c
      else connect_as c m.connection.username m.connection.password

  unfoldable pub attempt : ℕ → MqttClient → Client → MqttClient × Client
  attempt now m c =
      let (ok, c1) = connect m c in
      if ok
      then (record m { backoff_ms = reconnect_backoff_min_ms; next_attempt_ms = now }, c1)
      else (
        record m {
          next_attempt_ms = add32 now m.backoff_ms;
          backoff_ms = increase_backoff m.backoff_ms;
        },
        c1,
      )

  abbrev lost : MqttClient → MqttClient
  lost m = record m { was_connected = false }

  unfoldable pub update : ℕ → Bool → MqttClient → Client → MqttClient × Client
  update now network_ready m c =
      if not m.configured || not m.has_network_client
      then (m, c)
      else if not network_ready
      then (lost m, if is_connected c then disconnect c else c)
      else if is_connected c
      then (record m { was_connected = true; backoff_ms = reconnect_backoff_min_ms }, loop c)
      else if reached now m.next_attempt_ms
      then attempt now (lost m) c
      else (lost m, c)

  unfoldable pub publish : List ℕ → MqttClient → Client → Bool × Client
  publish payload m c =
      if not (is_connected c) || length payload == 0
      then (false, c)
      else publish_message c m.connection.topic payload
