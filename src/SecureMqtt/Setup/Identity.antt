-- ===== src/SecureMqtt/Setup/Identity.antt =====
-- When the client is set up.
use multisensory_device.Base.{
  ℕ, zero, suc, ◌+◌, ◌/◌, ◌%◌, ◌^◌, ◌≤◌, ◌≡◌, refl, true, false, ◌&&◌, Option, List, [], ◌∷◌, ◌++◌,
  arith, length, length-append, Option-cases, inl, inr,
}
use multisensory_device.Base.Text.{codes}
use multisensory_device.Base.Decimal.{print_decimal, length-print_decimal}
use multisensory_device.MqttTopics.{MqttTopics, is_valid_id, build}
use multisensory_device.MqttTopics.Fit.{build_iff, is_valid_id-length}
use multisensory_device.SecureMqtt.{EspMqtt, SecureMqtt}
use multisensory_device.SecureMqtt.Setup.{
  Settings, MqttConfig, hex_digit, print_hex, client_id, status_start, offline_status,
  online_status, build_identity_and_status, has_credentials, mqtt_config, is_there, begin,
}

length-print_hex : (k n : ℕ) → length (print_hex k n) ≡ k
unfolding print_hex
length-print_hex zero n = refl
length-print_hex (suc k) n =
    let rest = length-print_hex k (n / 16) in
    let whole = length-append (print_hex k (n / 16)) (hex_digit (n % 16) ∷ []) in
    omega (arith, rest, whole)

length-client_id : (s : Settings) → length (client_id s) ≡ length s.device_id + 12
unfolding client_id
length-client_id s =
    let hex = length-print_hex 8 (s.chip_id % 2 ^ 32) in
    let tail = length-append s.device_id (b'-' ∷ print_hex 8 (s.chip_id % 2 ^ 32)) in
    omega (arith, hex, tail)

length-status_start :
    (s : Settings) (boot_id : ℕ)
    → length (status_start s boot_id) ≤ length s.device_id + length s.vehicle_id + 100
unfolding status_start
length-status_start s boot_id =
    let number = length-print_decimal 10 boot_id in
    let vehicle =
      length-append s.vehicle_id (codes "\",\"boot_id\":" ++ print_decimal 10 boot_id) in
    let device = length-append s.device_id (
      codes "\",\"vehicle_id\":\""
      ++ (s.vehicle_id ++ (codes "\",\"boot_id\":" ++ print_decimal 10 boot_id))) in
    omega (arith, number, vehicle, device)

length-offline_status :
    (s : Settings) (boot_id : ℕ)
    → length (offline_status s boot_id) ≤ length s.device_id + length s.vehicle_id + 180
unfolding offline_status
length-offline_status s boot_id =
    let start = length-status_start s boot_id in
    let whole =
      length-append (status_start s boot_id) (
        codes ",\"state\":\"offline\",\"reason\":\"unexpected_disconnect\",\"simulated\":false}") in
    omega (arith, start, whole)

length-online_status :
    (s : Settings) (boot_id : ℕ)
    → length (online_status s boot_id)
      ≤ length s.device_id + length s.vehicle_id + length s.firmware_version + 190
unfolding online_status
length-online_status s boot_id =
    let start = length-status_start s boot_id in
    let version = length-append s.firmware_version (codes "\",\"simulated\":false}") in
    let whole = length-append (status_start s boot_id) (
      codes ",\"state\":\"online\",\"reason\":\"connected\",\"firmware_version\":\""
      ++ (s.firmware_version ++ codes "\",\"simulated\":false}")) in
    omega (arith, start, version, whole)

build_identity_and_status_fits :
    (s : Settings) (boot_id : ℕ)
    → is_valid_id s.vehicle_id ≡ true
    → is_valid_id s.device_id ≡ true
    → length s.firmware_version ≤ 64
    → build_identity_and_status s boot_id ≡ true
unfolding build_identity_and_status
build_identity_and_status_fits s boot_id hv hd short =
    let vehicle = is_valid_id-length s.vehicle_id hv in
    let device = is_valid_id-length s.device_id hd in
    let client = length-client_id s in
    let offline = length-offline_status s boot_id in
    let online = length-online_status s boot_id in
    ground (arith, vehicle, device, client, offline, online, short)

build-valid :
    (vehicle_id device_id : List ℕ) (t : MqttTopics)
    → (build vehicle_id device_id t).valid ≡ (is_valid_id vehicle_id && is_valid_id device_id)
build-valid vehicle_id device_id t = ground (arith, build_iff vehicle_id device_id t)

-- For a firmware version of at most 64 characters the set-up succeeds exactly if the credentials are filled
-- in, both ids are valid, and the library makes a client of the configuration: no text of the identity or of
-- the status messages is ever too long for its buffer. Only then the client is configured.
pub begin_lem :
    (esp : EspMqtt) (init : MqttConfig → Option esp.Client) (s : Settings) (boot_id : ℕ)
    (m : SecureMqtt) (client : Option esp.Client)
    → length s.firmware_version ≤ 64
    → m.link.configured ≡ false
    → let (ok, m', client') = begin esp init s boot_id m client in
      (ok ≡ (
        has_credentials s
        && is_valid_id s.vehicle_id
        && is_valid_id s.device_id
        && is_there esp init
            (init (mqtt_config s boot_id (build s.vehicle_id s.device_id m.topics)))))
      × (m'.link.configured ≡ ok)
unfolding begin
begin_lem esp init s boot_id m client short fresh =
    let topics = build s.vehicle_id s.device_id m.topics in
    let built = build-valid s.vehicle_id s.device_id m.topics in
    let fits = build_identity_and_status_fits s boot_id in
    elim (Option-cases (init (mqtt_config s boot_id topics))) [
      | inl e ↦
          (ground (arith, e, built, fits, short), ground (arith, e, built, fits, short, fresh))
      | inr (c, e) ↦
          (ground (arith, e, built, fits, short), ground (arith, e, built, fits, short, fresh))
    ]
