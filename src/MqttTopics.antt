-- ===== src/MqttTopics.antt =====
-- communication/MqttTopics.h and .cpp. An id is a C string that is never null here; a topic buffer is
-- the string that it holds.
pub mod Fit
pub mod Distinct
mod Tests
use multisensory_device.Base.{
  ℕ, Bool, true, false, not, ◌&&◌, ◌||◌, List, [], ◌∷◌, ◌++◌, arith, ltb, leb, ◌==◌, if◌then◌else◌,
  length,
}
use multisensory_device.Base.Text.{codes}

abbrev pub topic_size : ℕ
topic_size = 256

abbrev pub max_id_length : ℕ
max_id_length = 64

abbrev pub prefix : List ℕ
prefix = codes "vehiclesense/v1/vehicles"

-- std::isalnum in the C locale.
abbrev pub is_alnum : ℕ → Bool
is_alnum c = (leb b'0' c && leb c b'9') || (leb b'A' c && leb c b'Z') || (leb b'a' c && leb c b'z')

abbrev pub is_id_character : ℕ → Bool
is_id_character c = is_alnum c || c == b'.' || c == b'_' || c == b'-'

unfoldable pub all_id_characters : List ℕ → Bool
all_id_characters [] = true
all_id_characters (c ∷ s) = is_id_character c && all_id_characters s

unfoldable pub is_valid_id : List ℕ → Bool
unfolding all_id_characters
is_valid_id value =
    if length value == 0 || ltb max_id_length (length value) then false else all_id_characters value

unfoldable pub topic : List ℕ → List ℕ → List ℕ → List ℕ
topic vehicle_id device_id suffix =
    prefix ++ (b'/' ∷ (vehicle_id ++ (codes "/devices/" ++ (device_id ++ (b'/' ∷ suffix)))))

-- snprintf succeeds if the text and its zero fit the buffer.
abbrev pub fits : List ℕ → Bool
fits text = ltb (length text) topic_size

pub record MqttTopics : Type 0 where
  pub valid : Bool
  pub telemetry : List ℕ
  pub status : List ℕ
  pub events : List ℕ
  pub acoustic : List ℕ
  pub commands : List ℕ
  pub command_acks : List ℕ

-- The six topics of a device.
abbrev pub built : List ℕ → List ℕ → MqttTopics
built vehicle_id device_id = record {
  valid = true;
  telemetry = topic vehicle_id device_id (codes "telemetry");
  status = topic vehicle_id device_id (codes "status");
  events = topic vehicle_id device_id (codes "events");
  acoustic = topic vehicle_id device_id (codes "acoustic");
  commands = topic vehicle_id device_id (codes "commands");
  command_acks = topic vehicle_id device_id (codes "command-acks");
}

-- A buffer that is too small gets a cut text, which nothing reads while `valid` is false; the buffers
-- of a failed build are not modelled.
unfoldable pub build : List ℕ → List ℕ → MqttTopics → MqttTopics
build vehicle_id device_id t =
    let b = built vehicle_id device_id in
    if not (is_valid_id vehicle_id) || not (is_valid_id device_id)
    then record t { valid = false }
    else if fits b.telemetry
        && fits b.status
        && fits b.events
        && fits b.acoustic
        && fits b.commands
        && fits b.command_acks
    then b
    else record t { valid = false }
