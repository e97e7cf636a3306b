-- ===== src/Calibration.antt =====
-- calibration/BarometerMath.h and .cpp: pressure and altitude. `nan` is NAN and `pow` is std::pow on floats, which is
-- not part of the repository.
pub mod Store
mod Tests
use multisensory_device.Base.{Bool, not, ◌&&◌, ◌||◌, if◌then◌else◌}
use multisensory_device.Base.Int.{pos}
use multisensory_device.Floats.{Floats, within}

module _ (f : Floats) (nan : f.Float) (pow : f.Float → f.Float → f.Float) where
  open f.float use {literal, is_finite, at_least, exceeds}

  abbrev zero_float : f.Float
  zero_float = literal (pos 0) 0

  abbrev altitude_scale_m : f.Float
  altitude_scale_m = literal (pos 44330) 0

  -- x, if it is finite.
  abbrev finite_or_nan : f.Float → f.Float
  finite_or_nan x = if is_finite x then x else nan

  unfoldable pub is_valid_sea_level_pressure : f.Float → Bool
  is_valid_sea_level_pressure pressure_hpa =
      is_finite pressure_hpa && within f.float pressure_hpa (pos 800) (pos 1100)

  -- !isfinite(pressure) || pressure <= 0
  abbrev pub is_no_pressure : f.Float → Bool
  is_no_pressure pressure = not (is_finite pressure) || at_least zero_float pressure

  unfoldable pub apply_pressure_offset : f.Float → f.Float → f.Float
  apply_pressure_offset raw_pressure_hpa pressure_offset_hpa =
      let corrected = f.float.add raw_pressure_hpa pressure_offset_hpa in
      if is_no_pressure raw_pressure_hpa || not (is_finite pressure_offset_hpa)
      then nan
      else if exceeds corrected zero_float && is_finite corrected
      then corrected
      else nan

  unfoldable pub altitude_from_pressure : f.Float → f.Float → f.Float
  altitude_from_pressure pressure_hpa sea_level_pressure_hpa =
      let ratio = f.float.div pressure_hpa sea_level_pressure_hpa in
      let altitude =
        f.float.mul altitude_scale_m
          (f.float.sub (literal (pos 1) 0) (pow ratio (literal (pos 1903) 4))) in
      if is_no_pressure pressure_hpa || not (is_valid_sea_level_pressure sea_level_pressure_hpa)
      then nan
      else finite_or_nan altitude

  unfoldable pub sea_level_pressure_from_altitude : f.Float → f.Float → f.Float
  sea_level_pressure_from_altitude altitude_m pressure_hpa =
      let base = f.float.sub (literal (pos 1) 0) (f.float.div altitude_m altitude_scale_m) in
      let sea_level_pressure = f.float.div pressure_hpa (pow base (literal (pos 5255) 3)) in
      if not (is_finite altitude_m)
        || at_least altitude_m altitude_scale_m
        || is_no_pressure pressure_hpa
      then nan
      else if at_least zero_float base
      then nan
      else if is_valid_sea_level_pressure sea_level_pressure
      then sea_level_pressure
      else nan
