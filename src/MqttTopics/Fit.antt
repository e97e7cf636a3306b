-- ===== src/MqttTopics/Fit.antt =====
-- Every pair of valid ids has its six topics.
use multisensory_device.Base.{
  ℕ, ◌+◌, ◌≤◌, ◌≡◌, ◌↔◌, true, List, ◌∷◌, ◌++◌, arith, length, length-append,
}
use multisensory_device.Base.Text.{codes}
use multisensory_device.MqttTopics.{MqttTopics, is_valid_id, topic, build, fits, max_id_length}

length-topic :
    (vehicle_id device_id suffix : List ℕ)
    → length (topic vehicle_id device_id suffix)
      ≡ 35 + length vehicle_id + length device_id + length suffix
unfolding topic
length-topic vehicle_id device_id suffix = omega (
  arith,
  length-append vehicle_id (codes "/devices/" ++ (device_id ++ (b'/' ∷ suffix))),
  length-append device_id (b'/' ∷ suffix),
)

pub is_valid_id-length : (value : List ℕ) → is_valid_id value ≡ true → length value ≤ max_id_length
unfolding is_valid_id
is_valid_id-length value h = ground arith

fits_topic :
    (vehicle_id device_id suffix : List ℕ)
    → length vehicle_id ≤ max_id_length
    → length device_id ≤ max_id_length
    → length suffix ≤ 12
    → fits (topic vehicle_id device_id suffix) ≡ true
fits_topic vehicle_id device_id suffix hv hd hs =
    ground (arith, length-topic vehicle_id device_id suffix)

-- The topics are built, each within its buffer, exactly if both ids are valid: the length limit on ids
-- leaves no pair of valid ids whose topics overflow.
pub build_iff :
    (vehicle_id device_id : List ℕ) (t : MqttTopics)
    → ((build vehicle_id device_id t).valid ≡ true)
      ↔ ((is_valid_id vehicle_id ≡ true) × (is_valid_id device_id ≡ true))
unfolding build
build_iff vehicle_id device_id t = (
  λ h. ground arith,
  λ h.
      let fit = λ (suffix : List ℕ) (short : length suffix ≤ 12).
        fits_topic vehicle_id device_id suffix (is_valid_id-length vehicle_id h.0)
          (is_valid_id-length device_id h.1) short in
      ground (
        arith,
        fit (codes "telemetry") (omega arith),
        fit (codes "status") (omega arith),
        fit (codes "events") (omega arith),
        fit (codes "acoustic") (omega arith),
        fit (codes "commands") (omega arith),
        fit (codes "command-acks") (omega arith),
      ),
)
