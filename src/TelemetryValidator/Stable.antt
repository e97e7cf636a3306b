-- ===== src/TelemetryValidator/Stable.antt =====
-- Validation at the same time once more changes nothing.
use multisensory_device.Base.{ℕ, ◌≡◌, refl, arith}
use multisensory_device.Floats.{Floats}
use multisensory_device.AcousticTypes.{AcousticData}
use multisensory_device.TelemetryData.{
  TelemetryData, Dht11Data, LightData, GpsData, AccelData, AxesData, BarometerData, Gy801Data,
}
use multisensory_device.TelemetryValidator.{
  validate_dht, validate_gps, validate_light, validate_accel, validate_axes, validate_barometer,
  validate_gy801, validate_acoustic, validate,
}

module _ (f : Floats) (now : ℕ) where
  dht_stable : (d : Dht11Data f) → validate_dht f (validate_dht f d now) now ≡ validate_dht f d now
  unfolding validate_dht
  dht_stable d = ground arith

  gps_stable : (d : GpsData f) → validate_gps f (validate_gps f d now) now ≡ validate_gps f d now
  unfolding validate_gps
  gps_stable d = ground arith

  light_stable :
      (d : LightData f) → validate_light f (validate_light f d now) now ≡ validate_light f d now
  unfolding validate_light
  light_stable d = ground arith

  accel_stable :
      (d : AccelData f) → validate_accel f (validate_accel f d now) now ≡ validate_accel f d now
  unfolding validate_accel
  accel_stable d = ground arith

  axes_stable :
      (d : AxesData f) → validate_axes f (validate_axes f d now) now ≡ validate_axes f d now
  unfolding validate_axes
  axes_stable d = ground arith

  barometer_stable :
      (d : BarometerData f)
      → validate_barometer f (validate_barometer f d now) now ≡ validate_barometer f d now
  unfolding validate_barometer
  barometer_stable d = ground arith

  gy801_stable :
      (d : Gy801Data f) → validate_gy801 f (validate_gy801 f d now) now ≡ validate_gy801 f d now
  unfolding validate_gy801
  gy801_stable d =
      rw (accel_stable d.accel, axes_stable d.gyro, axes_stable d.mag, barometer_stable d.barometer)
        refl

  acoustic_stable :
      (d : AcousticData f)
      → validate_acoustic f (validate_acoustic f d now) now ≡ validate_acoustic f d now
  unfolding validate_acoustic
  acoustic_stable d = ground arith

  pub validate_stable : (d : TelemetryData f) → validate f (validate f d now) now ≡ validate f d now
  unfolding validate
  validate_stable d =
      rw
        (
          dht_stable d.dht,
          gps_stable d.gps,
          light_stable d.light,
          gy801_stable d.gy801,
          acoustic_stable d.acoustic,
        )
        refl
