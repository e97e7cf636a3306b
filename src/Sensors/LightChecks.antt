-- ===== src/Sensors/LightChecks.antt =====
-- The light sensor and the validator.
use multisensory_device.Base.{ℕ, ◌≡◌, true, false, not, ◌&&◌, ◌||◌, List, [], ◌∷◌, arith}
use multisensory_device.Floats.{Floats}
use multisensory_device.TelemetryValidator.{is_fresh, validate_light}
use multisensory_device.Sensors.Bh1750.{LightBus, Bh1750Sensor, begin, read, update, is_lux}

module _ (f : Floats) (nan : f.Float) (bus : LightBus f) where
  -- The sensor after some ticks: the clock, twice, and the state of the bus at each, which may change in
  -- between in any way.
  unfoldable pub after : List (ℕ × ℕ × bus.Bus) → Bh1750Sensor f → Bh1750Sensor f
  after [] s = s
  after ((now, millis, b) ∷ ticks) s = after ticks (update f nan bus now millis s b).0

  abbrev IsChecked : Bh1750Sensor f → Type 0
  IsChecked s = (not s.reading.valid || is_lux f nan bus s.reading.lux) ≡ true

  update-IsChecked :
      (now millis : ℕ) (s : Bh1750Sensor f) (b : bus.Bus)
      → IsChecked s
      → IsChecked (update f nan bus now millis s b).0
  unfolding update begin read
  update-IsChecked now millis s b h = ground (arith, h)

  after-IsChecked :
      (ticks : List (ℕ × ℕ × bus.Bus)) (s : Bh1750Sensor f)
      → IsChecked s
      → IsChecked (after ticks s)
  unfolding after
  after-IsChecked [] s h = h
  after-IsChecked ((now, millis, b) ∷ ticks) s h =
      after-IsChecked ticks (update f nan bus now millis s b).0 (update-IsChecked now millis s b h)

  -- Whatever the light meter delivers, whenever it is lost and found again: a reading that the sensor calls
  -- valid is refused by the telemetry's validator only for its age. The validator's tests of the value never
  -- decide.
  pub validate_light-after :
      (ticks : List (ℕ × ℕ × bus.Bus)) (s : Bh1750Sensor f) (t : ℕ)
      → s.reading.valid ≡ false
      → let d = (after ticks s).reading in
        (validate_light f d t).valid ≡ (d.valid && is_fresh t d.updated_at_ms 3000)
  unfolding validate_light
  validate_light-after ticks s t h =
      let checked = after-IsChecked ticks s (ground (arith, h)) in ground (arith, checked)
