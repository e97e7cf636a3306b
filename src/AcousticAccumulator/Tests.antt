-- ===== src/AcousticAccumulator/Tests.antt =====
-- The theorem on the accumulator at two windows, of which one is valid.
use multisensory_device.Base.{
  ◌≡◌, ◌*◌, ◌/◌, ◌+◌, ◌&&◌, refl, true, false, some, [], ◌∷◌, arith, leb, ltb,
}
use multisensory_device.Floats.Fixed.{fixed_floats}
use multisensory_device.TelemetryData.Sample.{sound}
use multisensory_device.AcousticTypes.{AudioFeatures}
use multisensory_device.AcousticAccumulator.{add, start}
use multisensory_device.AcousticAccumulator.Windows.{
  after, given, count_valid, count_responsive, window_lem,
}

abbrev window : AudioFeatures fixed_floats
window = record {
  valid = true;
  signal_responsive = true;
  sample_rate_hz = 16000;
  window_duration_ms = 64;
  relative_level_dbfs = sound.relative_level_dbfs;
  peak_dbfs = sound.peak_dbfs;
  clipping_ratio = sound.clipping_ratio;
  crest_factor = sound.crest_factor;
  zero_crossing_rate = sound.zero_crossing_rate;
  spectral_centroid_hz = sound.spectral_centroid_hz;
  spectral_flatness = sound.spectral_flatness;
  spectral_rolloff_hz = sound.spectral_rolloff_hz;
  bands = sound.bands;
}

abbrev lost : AudioFeatures fixed_floats
lost = record window { valid = false }

window_lem_example :
    (given fixed_floats 0 (lost ∷ []) (start fixed_floats 0 2) ≡ [])
    × ((y : AudioFeatures fixed_floats) × (add fixed_floats 0 window
            (after fixed_floats 0 (lost ∷ []) (start fixed_floats 0 2))
          ≡ (some y, start fixed_floats 0 2))
        × (y.valid ≡ (
            leb (2 * 3 / 4) (count_valid (window ∷ lost ∷ []))
            && ltb 0 (count_valid (window ∷ lost ∷ []))))
        × (y.signal_responsive ≡ leb ((2 + 1) / 2) (count_responsive (window ∷ lost ∷ []))))
window_lem_example = window_lem fixed_floats 0 (lost ∷ []) window 2 refl (omega arith)
