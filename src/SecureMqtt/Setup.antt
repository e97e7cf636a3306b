-- ===== src/SecureMqtt/Setup.antt =====
-- The set-up of the client: `begin` and `buildIdentityAndStatus`.
pub mod Identity
mod Tests
use multisensory_device.Base.{
  ℕ, zero, suc, ◌+◌, ◌*◌, ◌/◌, ◌%◌, ◌^◌, ◌-◌, Bool, true, false, not, ◌&&◌, ◌||◌, Option, none,
  some, List, [], ◌∷◌, ◌++◌, ltb, ◌==◌, if◌then◌else◌, length,
}
use multisensory_device.Base.Text.{codes}
use multisensory_device.Base.Decimal.{print_decimal}
use multisensory_device.Config.{
  mqtt_keepalive_seconds, mqtt_socket_timeout_seconds, vehiclesense_mqtt_buffer_size,
  vehiclesense_mqtt_task_stack_size, reconnect_backoff_min_ms,
}
use multisensory_device.MqttClient.{has_real_value}
use multisensory_device.MqttTopics.{MqttTopics, build}
use multisensory_device.SecureMqtt.{EspMqtt, SecureMqtt}

-- The constants of secrets.h and config.h, and the number of the chip.
pub record Settings : Type 0 where
  pub host : List ℕ
  pub port : ℕ
  pub username : List ℕ
  pub password : List ℕ
  pub vehicle_id : List ℕ
  pub device_id : List ℕ
  pub firmware_version : List ℕ
  pub root_certificate : List ℕ
  pub chip_id : ℕ

-- esp_mqtt_client_config_t, as far as it is filled: the protocol is 3.1.1 over TLS.
pub record MqttConfig : Type 0 where
  pub host : List ℕ
  pub port : ℕ
  pub client_id : List ℕ
  pub username : List ℕ
  pub password : List ℕ
  pub lwt_topic : List ℕ
  pub lwt_message : List ℕ
  pub lwt_qos : ℕ
  pub lwt_retain : Bool
  pub lwt_message_length : ℕ
  pub keepalive : ℕ
  pub disable_auto_reconnect : Bool
  pub task_stack : ℕ
  pub buffer_size : ℕ
  pub out_buffer_size : ℕ
  pub certificate : List ℕ
  pub skip_cert_common_name_check : Bool
  pub network_timeout_ms : ℕ
  pub reconnect_timeout_ms : ℕ

abbrev pub hex_digit : ℕ → ℕ
hex_digit d = if ltb d 10 then b'0' + d else b'A' + d - 10

-- `%0<k>lX` of a number that fits k places.
unfoldable pub print_hex : ℕ → ℕ → List ℕ
print_hex zero n = []
print_hex (suc k) n = print_hex k (n / 16) ++ (hex_digit (n % 16) ∷ [])

unfoldable pub client_id : Settings → List ℕ
client_id s = codes "vs-" ++ (s.device_id ++ (b'-' ∷ print_hex 8 (s.chip_id % 2 ^ 32)))

-- The start that both status messages share.
unfoldable pub status_start : Settings → ℕ → List ℕ
status_start s boot_id =
    codes "{\"schema_version\":1,\"message_type\":\"status\",\"device_id\":\""
    ++ (s.device_id
        ++ (codes "\",\"vehicle_id\":\""
            ++ (s.vehicle_id ++ (codes "\",\"boot_id\":" ++ print_decimal 10 boot_id))))

unfoldable pub offline_status : Settings → ℕ → List ℕ
offline_status s boot_id =
    status_start s boot_id
    ++ codes ",\"state\":\"offline\",\"reason\":\"unexpected_disconnect\",\"simulated\":false}"

unfoldable pub online_status : Settings → ℕ → List ℕ
online_status s boot_id =
    status_start s boot_id
    ++ (codes ",\"state\":\"online\",\"reason\":\"connected\",\"firmware_version\":\""
        ++ (s.firmware_version ++ codes "\",\"simulated\":false}"))

-- The result of `buildIdentityAndStatus`: none of the three texts is cut.
unfoldable pub build_identity_and_status : Settings → ℕ → Bool
build_identity_and_status s boot_id =
    ltb (length (client_id s)) 96
    && ltb (length (offline_status s boot_id)) 384
    && ltb (length (online_status s boot_id)) 384

unfoldable pub has_credentials : Settings → Bool
has_credentials s =
    has_real_value s.host
    && not (s.port == 0)
    && has_real_value s.username
    && has_real_value s.password

unfoldable pub mqtt_config : Settings → ℕ → MqttTopics → MqttConfig
mqtt_config s boot_id topics = record {
  host = s.host;
  port = s.port;
  client_id = client_id s;
  username = s.username;
  password = s.password;
  lwt_topic = topics.status;
  lwt_message = offline_status s boot_id;
  lwt_qos = 1;
  lwt_retain = true;
  lwt_message_length = length (offline_status s boot_id);
  keepalive = mqtt_keepalive_seconds;
  disable_auto_reconnect = true;
  task_stack = vehiclesense_mqtt_task_stack_size;
  buffer_size = vehiclesense_mqtt_buffer_size;
  out_buffer_size = vehiclesense_mqtt_buffer_size;
  certificate = s.root_certificate;
  skip_cert_common_name_check = false;
  network_timeout_ms = mqtt_socket_timeout_seconds * 1000;
  reconnect_timeout_ms = reconnect_backoff_min_ms;
}

-- `init` is esp_mqtt_client_init, and `client` the client before the call, if there was one. The text for a new
-- connection is kept; the other two are handed over with the configuration.
module _ (esp : EspMqtt) (init : MqttConfig → Option esp.Client) where
  abbrev pub is_there : Option esp.Client → Bool
  is_there none = false
  is_there (some client) = true

  abbrev pub given : SecureMqtt → Option esp.Client → Bool × SecureMqtt × Option esp.Client
  given m none = (false, record m { link = record m.link { has_client = false } }, none)
  given m (some client) = (
    true,
    record m { link = record m.link { has_client = true; configured = true; next_attempt_ms = 0 } },
    some client,
  )

  unfoldable pub begin :
      Settings → ℕ → SecureMqtt → Option esp.Client → Bool × SecureMqtt × Option esp.Client
  begin s boot_id m client =
      let topics = build s.vehicle_id s.device_id m.topics in
      let named = record m { topics = topics } in
      let ready = record named { online_status = online_status s boot_id } in
      if not (has_credentials s)
      then (false, m, client)
      else if not topics.valid
      then (false, named, client)
      else if not (build_identity_and_status s boot_id)
      then (false, ready, client)
      else given ready (init (mqtt_config s boot_id topics))
