-- ===== src/TelemetryValidator/Agreement.antt =====
-- What a message says of a validated snapshot is what the snapshot says of itself.
use multisensory_device.Base.{ℕ, ◌≡◌, ◌&&◌, arith}
use multisensory_device.Floats.{Floats}
use multisensory_device.TelemetryData.{TelemetryData}
use multisensory_device.TelemetryValidator.{
  validate_dht, validate_gps, validate_light, validate_accel, validate_axes, validate_barometer,
  validate_gy801, validate_acoustic, validate,
}
use multisensory_device.TelemetryBuilder.{
  in_range, dht_valid, gps_valid, accel_valid, axes_valid, baro_valid, light_valid, acoustic_valid,
}

module _ (f : Floats) (d : TelemetryData f) (now : ℕ) where
  -- After the validation the builder's own checks, which decide what a message says and holds, pass for a
  -- sensor exactly if the snapshot marks it valid, for a position as version 2 checks it; and the
  -- inertial unit is valid exactly if all its three sensors are.
  pub flags_agree :
      let v = validate f d now in
      (dht_valid f v.dht ≡ v.dht.valid)
      × (gps_valid f v.gps ≡ v.gps.valid)
      × (light_valid f v.light ≡ v.light.valid)
      × (accel_valid f v.gy801.accel ≡ v.gy801.accel.valid)
      × (axes_valid f v.gy801.gyro ≡ v.gy801.gyro.valid)
      × (axes_valid f v.gy801.mag ≡ v.gy801.mag.valid)
      × (baro_valid f v.gy801.barometer ≡ v.gy801.barometer.valid)
      × (acoustic_valid f v.acoustic ≡ v.acoustic.analysis_valid)
      × (v.gy801.imu_valid
          ≡ (accel_valid f v.gy801.accel && axes_valid f v.gy801.gyro && axes_valid f v.gy801.mag))
  unfolding validate validate_dht validate_gps validate_light validate_gy801 validate_accel
      validate_axes validate_barometer validate_acoustic dht_valid gps_valid light_valid accel_valid
      axes_valid baro_valid acoustic_valid in_range
  flags_agree = (
    ground arith,
    ground arith,
    ground arith,
    ground arith,
    ground arith,
    ground arith,
    ground arith,
    ground arith,
    ground arith,
  )
