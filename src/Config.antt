-- ===== src/Config.antt =====
-- include/config.h: the sizes, periods and limits that the modelled parts use.
use multisensory_device.Base.{ℕ}

abbrev pub telemetry_payload_buffer_size : ℕ
telemetry_payload_buffer_size = 2048

abbrev pub offline_queue_max_records : ℕ
offline_queue_max_records = 256

abbrev pub offline_queue_max_bytes : ℕ
offline_queue_max_bytes = 786432

abbrev pub offline_queue_max_age_seconds : ℕ
offline_queue_max_age_seconds = 604800

abbrev pub offline_queue_replay_interval_ms : ℕ
offline_queue_replay_interval_ms = 250

abbrev pub sd_retry_interval_ms : ℕ
sd_retry_interval_ms = 30000

abbrev pub reconnect_backoff_min_ms : ℕ
reconnect_backoff_min_ms = 5000

abbrev pub reconnect_backoff_max_ms : ℕ
reconnect_backoff_max_ms = 30000

abbrev pub mqtt_puback_timeout_ms : ℕ
mqtt_puback_timeout_ms = 30000

abbrev pub mqtt_command_buffer_size : ℕ
mqtt_command_buffer_size = 1024

abbrev pub wifi_connect_timeout_ms : ℕ
wifi_connect_timeout_ms = 12000

abbrev pub sim800_action_interval_ms : ℕ
sim800_action_interval_ms = 5000

abbrev pub sim800_status_interval_ms : ℕ
sim800_status_interval_ms = 30000

abbrev pub acoustic_alert_required_duration_ms : ℕ
acoustic_alert_required_duration_ms = 8000

abbrev pub acoustic_alert_cooldown_ms : ℕ
acoustic_alert_cooldown_ms = 30000

abbrev pub dht_read_interval_ms : ℕ
dht_read_interval_ms = 2000

abbrev pub baro_read_interval_ms : ℕ
baro_read_interval_ms = 2000

abbrev pub light_read_interval_ms : ℕ
light_read_interval_ms = 1000

abbrev pub imu_read_interval_ms : ℕ
imu_read_interval_ms = 100

abbrev pub gps_fix_max_age_ms : ℕ
gps_fix_max_age_ms = 5000

abbrev pub acoustic_stale_ms : ℕ
acoustic_stale_ms = 3000

abbrev pub telemetry_interval_ms : ℕ
telemetry_interval_ms = 10000

abbrev pub ntp_sync_retry_interval_ms : ℕ
ntp_sync_retry_interval_ms = 60000

abbrev pub local_web_snapshot_interval_ms : ℕ
local_web_snapshot_interval_ms = 1000

abbrev pub sd_log_rotate_bytes : ℕ
sd_log_rotate_bytes = 1048576

abbrev pub sensor_retry_interval_ms : ℕ
sensor_retry_interval_ms = 30000

abbrev pub gps_no_data_warning_ms : ℕ
gps_no_data_warning_ms = 5000

abbrev pub mqtt_keepalive_seconds : ℕ
mqtt_keepalive_seconds = 30

abbrev pub mqtt_socket_timeout_seconds : ℕ
mqtt_socket_timeout_seconds = 3

abbrev pub vehiclesense_mqtt_buffer_size : ℕ
vehiclesense_mqtt_buffer_size = 4096

abbrev pub vehiclesense_mqtt_task_stack_size : ℕ
vehiclesense_mqtt_task_stack_size = 8192

abbrev pub acoustic_frame_samples : ℕ
acoustic_frame_samples = 1024
