-- ===== src/TelemetryValidator/Tests.antt =====
-- The theorem on the validator at a snapshot with all sensors, ten seconds after the start.
use multisensory_device.Base.{◌≡◌, ◌&&◌, refl, true}
use multisensory_device.Floats.Fixed.{fixed_floats}
use multisensory_device.TelemetryData.Sample.{snapshot}
use multisensory_device.TelemetryBuilder.{
  dht_valid, gps_valid, accel_valid, axes_valid, baro_valid, light_valid, acoustic_valid,
}
use multisensory_device.TelemetryValidator.{validate, validate_dht, is_fresh}
use multisensory_device.TelemetryValidator.Agreement.{flags_agree}

fresh_run : (validate fixed_floats snapshot 10000).dht.valid ≡ true
unfolding validate validate_dht is_fresh
fresh_run = refl

flags_agree_example :
    let v = validate fixed_floats snapshot 10000 in
    (dht_valid fixed_floats v.dht ≡ v.dht.valid)
    × (gps_valid fixed_floats v.gps ≡ v.gps.valid)
    × (light_valid fixed_floats v.light ≡ v.light.valid)
    × (accel_valid fixed_floats v.gy801.accel ≡ v.gy801.accel.valid)
    × (axes_valid fixed_floats v.gy801.gyro ≡ v.gy801.gyro.valid)
    × (axes_valid fixed_floats v.gy801.mag ≡ v.gy801.mag.valid)
    × (baro_valid fixed_floats v.gy801.barometer ≡ v.gy801.barometer.valid)
    × (acoustic_valid fixed_floats v.acoustic ≡ v.acoustic.analysis_valid)
    × (v.gy801.imu_valid ≡ (
        accel_valid fixed_floats v.gy801.accel
        && axes_valid fixed_floats v.gy801.gyro
        && axes_valid fixed_floats v.gy801.mag))
flags_agree_example = flags_agree fixed_floats snapshot 10000
