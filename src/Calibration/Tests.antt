-- ===== src/Calibration/Tests.antt =====
-- The theorem on the stored calibration, over storage that holds the three values.
use multisensory_device.Base.{ℕ, ◌≡◌, refl, true}
use multisensory_device.Floats.Fixed.{fixed_floats}
use multisensory_device.TelemetryData.{known_altitude}
use multisensory_device.TelemetryData.Sample.{tenths}
use multisensory_device.Calibration.{is_valid_sea_level_pressure}
use multisensory_device.Calibration.Store.{
  CalibrationNvs, KeepsCalibration, source_code, load, save, load-save,
}

abbrev nvs : CalibrationNvs fixed_floats
nvs = record {
  Nvs = ℕ × ℕ × ℕ;
  opens_to_read = λ s. true;
  opens_to_write = λ s. true;
  clear_all = λ s. (true, (0, 0, 0));
  get_version = λ s. s.0;
  put_version = λ s v. (2, (v, s.1, s.2));
  get_pressure = λ s default. s.1;
  put_pressure = λ s x. (4, (s.0, x, s.2));
  get_source = λ s. s.2;
  put_source = λ s v. (1, (s.0, s.1, v));
}

keeps : KeepsCalibration nvs
keeps = record {
  version_kept = λ s v h. refl;
  pressure_kept = λ s x default h. refl;
  source_kept = λ s v h. refl;
  version_apart = λ s x v. (refl, refl);
  pressure_apart = λ s default v. refl;
}

-- std::pow is not used here.
abbrev pow : ℕ → ℕ → ℕ
pow x y = x

save_run : (save fixed_floats 0 pow nvs (tenths 10130) known_altitude (0, 0, 0)).0 ≡ true
unfolding save source_code is_valid_sea_level_pressure
save_run = refl

load-save_example :
    load fixed_floats 0 pow nvs
      (save fixed_floats 0 pow nvs (tenths 10130) known_altitude (0, 0, 0)).1
    ≡ record {
      sea_level_pressure_hpa = tenths 10130;
      calibration_source = known_altitude;
      persisted = true;
    }
load-save_example =
    load-save fixed_floats 0 pow nvs keeps (tenths 10130) known_altitude (0, 0, 0) save_run refl
