-- ===== src/Sensors/BarometerChecks.antt =====
-- The barometer and the validator.
use multisensory_device.Base.{ℕ, ◌≡◌, Bool, true, false, not, ◌&&◌, ◌||◌, List, [], ◌∷◌, arith}
use multisensory_device.Base.Int.{pos}
use multisensory_device.Floats.{Floats, within}
use multisensory_device.Calibration.{is_valid_sea_level_pressure}
use multisensory_device.TelemetryData.{BarometerData, BarometerCalibrationSource}
use multisensory_device.TelemetryValidator.{is_fresh, validate_barometer}
use multisensory_device.Sensors.Bmp180.{
  PressureBus, Bmp180Barometer, begin, read, update, set_calibration,
}

module _ (f : Floats) (nan : f.Float) (pow : f.Float → f.Float → f.Float)
    (bus : PressureBus f) where
  -- What happens to the sensor: a tick with the clock, twice, and the state of the bus, which may change in
  -- between in any way; or a new calibration.
  pub data Step : Type 0 where
    tick : ℕ → ℕ → bus.Bus → Step
    calibrate : f.Float → f.Float → BarometerCalibrationSource → Step

  unfoldable pub step : Step → Bmp180Barometer f → Bmp180Barometer f
  step (tick now millis w) b = (update f nan pow bus now millis b w).0
  step (calibrate sea_level offset source) b =
      (set_calibration f nan pow sea_level offset source b).1

  unfoldable pub after : List Step → Bmp180Barometer f → Bmp180Barometer f
  after [] b = b
  after (s ∷ steps) b = after steps (step s b)

  abbrev is_checked : BarometerData f → Bool
  is_checked d =
      f.float.is_finite d.raw_pressure_hpa
      && f.float.is_finite d.pressure_hpa
      && f.float.is_finite d.temperature_c
      && f.float.is_finite d.altitude_m
      && is_valid_sea_level_pressure f nan pow d.sea_level_pressure_hpa

  abbrev IsChecked : Bmp180Barometer f → Type 0
  IsChecked b =
      (is_valid_sea_level_pressure f nan pow b.sea_level_pressure_hpa ≡ true)
      × ((not b.reading.valid || is_checked b.reading) ≡ true)

  step-IsChecked : (s : Step) (b : Bmp180Barometer f) → IsChecked b → IsChecked (step s b)
  unfolding step update begin read set_calibration
  step-IsChecked (tick now millis w) b h = ground (arith, h)
  step-IsChecked (calibrate sea_level offset source) b h = ground (arith, h)

  after-IsChecked :
      (steps : List Step) (b : Bmp180Barometer f) → IsChecked b → IsChecked (after steps b)
  unfolding after
  after-IsChecked [] b h = h
  after-IsChecked (s ∷ steps) b h = after-IsChecked steps (step s b) (step-IsChecked s b h)

  -- Whatever the barometer delivers, whenever it is lost, found again or calibrated anew: a reading that the
  -- sensor calls valid is refused by the telemetry's validator only for its age or for a raw or corrected
  -- pressure that is not from 300 to 1100 hPa. The validator's other tests never decide.
  pub validate_barometer-after :
      (steps : List Step) (b : Bmp180Barometer f) (t : ℕ)
      → is_valid_sea_level_pressure f nan pow b.sea_level_pressure_hpa ≡ true
      → b.reading.valid ≡ false
      → let d = (after steps b).reading in
        (validate_barometer f d t).valid ≡ (
          d.valid
          && is_fresh t d.updated_at_ms 4000
          && within f.float d.raw_pressure_hpa (pos 300) (pos 1100)
          && within f.float d.pressure_hpa (pos 300) (pos 1100))
  unfolding validate_barometer is_valid_sea_level_pressure
  validate_barometer-after steps b t h k =
      let checked = after-IsChecked steps b (h, ground (arith, k)) in ground (arith, checked)
