-- ===== src/MqttTopics/Tests.antt =====
-- The theorems on topics at the identity of the configuration.
use multisensory_device.Base.{◌≡◌, refl, List, ℕ}
use multisensory_device.Base.Text.{codes}
use multisensory_device.MqttTopics.{is_valid_id, topic, build, built}
use multisensory_device.MqttTopics.Distinct.{topic_injective}

abbrev vehicle : List ℕ
vehicle = codes "vehicle_prototype_01"

abbrev device : List ℕ
device = codes "bus_iot_prototype_01"

build_run :
    (build vehicle device (built vehicle device)).telemetry
    ≡ codes "vehiclesense/v1/vehicles/vehicle_prototype_01/devices/bus_iot_prototype_01/telemetry"
unfolding build is_valid_id topic
build_run = refl

topic_injective_example :
    (vehicle ≡ vehicle) × (device ≡ device) × (codes "status" ≡ codes "status")
unfolding is_valid_id
topic_injective_example =
    topic_injective vehicle device (codes "status") vehicle device (codes "status") refl refl refl
      refl refl
