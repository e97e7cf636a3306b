-- ===== src/Sensors.antt =====
-- sensors/: the sensors of temperature, light, position and pressure. What drives a sensor is not part of the repository
-- and a parameter of the model; the lines for the serial log are left out.
pub mod Dht11
pub mod Bh1750
pub mod Gps
pub mod Bmp180
pub mod BarometerChecks
pub mod LightChecks
pub mod GpsClock
mod Tests
use multisensory_device.Base.{ℕ, Bool, not, ◌&&◌, ◌||◌, leb, ◌==◌, elapsed}

-- A period has passed since a moment.
abbrev pub is_over : ℕ → ℕ → ℕ → Bool
is_over period now since = leb period (elapsed now since)

-- The rule of a repeated warning: the first, and then one each period.
abbrev pub warns : ℕ → ℕ → ℕ → Bool
warns period now last = last == 0 || is_over period now last
