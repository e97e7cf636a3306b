-- ===== src/Microphone.antt =====
-- sensors/INMP441Microphone.h and .cpp, from the samples on: the task that cuts them into windows and publishes what
-- becomes of them, and the look at the age of the last result. The I2S driver and the start of the task are left
-- out; the extraction of the features of a window is a parameter.
pub mod Horns
mod Tests
use multisensory_device.Base.{
  ℕ, ◌+◌, ◌/◌, Bool, true, false, not, ◌&&◌, Option, none, some, List, [], ◌∷◌, ◌++◌, ltb, leb,
  ◌==◌, if◌then◌else◌, length, elapsed,
}
use multisensory_device.Base.Int.{ℤ, pos, negsuc}
use multisensory_device.Base.Text.{codes}
use multisensory_device.Config.{acoustic_frame_samples, acoustic_stale_ms}
use multisensory_device.Floats.{Floats}
use multisensory_device.AcousticTypes.{AcousticData, AudioFeatures}
use multisensory_device.AcousticClassifier.{classify}
use multisensory_device.AcousticAccumulator
use multisensory_device.AcousticAccumulator.{AcousticFeatureAccumulator, no_bands}

pub record Microphone (f : Floats) : Type 0 where
  pub reading : AcousticData f
  pub accumulator : AcousticFeatureAccumulator f
  pub normalized_samples : List f.Float
  pub consecutive_read_failures : ℕ

-- `raw >> 8`
abbrev shifted : ℤ → ℤ
shifted (pos n) = pos (n / 256)
shifted (negsuc n) = negsuc (n / 256)

-- `nan` is NAN, and `analyze` gives the features of a window, if it has them.
module _ (f : Floats) (nan : f.Float) (analyze : List f.Float → Option (AudioFeatures f)) where
  unfoldable pub publish_aggregate : AudioFeatures f → ℕ → Microphone f → Microphone f
  publish_aggregate x now m =
      let c = classify f x in
      record m {
        reading = record {
          microphone_valid = x.valid && x.signal_responsive;
          analysis_valid = x.valid && x.signal_responsive;
          relative_level_dbfs = x.relative_level_dbfs;
          peak_dbfs = x.peak_dbfs;
          clipping_ratio = x.clipping_ratio;
          clipping = f.float.at_least x.clipping_ratio (f.float.literal (pos 1) 3);
          crest_factor = x.crest_factor;
          zero_crossing_rate = x.zero_crossing_rate;
          spectral_centroid_hz = x.spectral_centroid_hz;
          spectral_flatness = x.spectral_flatness;
          spectral_rolloff_hz = x.spectral_rolloff_hz;
          bands = x.bands;
          sample_rate_hz = x.sample_rate_hz;
          window_duration_ms = x.window_duration_ms;
          category = c.category;
          confidence = c.confidence;
          classifier_version = c.classifier_version;
          updated_at_ms = now;
        };
      }

  unfoldable pub publish_invalid : ℕ → Microphone f → Microphone f
  publish_invalid now m = record m {
    reading = record {
      microphone_valid = false;
      analysis_valid = false;
      relative_level_dbfs = nan;
      peak_dbfs = nan;
      clipping_ratio = nan;
      clipping = false;
      crest_factor = nan;
      zero_crossing_rate = nan;
      spectral_centroid_hz = nan;
      spectral_flatness = nan;
      spectral_rolloff_hz = nan;
      bands = no_bands f nan nan;
      sample_rate_hz = 0;
      window_duration_ms = 0;
      category = codes "unknown";
      confidence = nan;
      classifier_version = [];
      updated_at_ms = now;
    };
  }

  abbrev normalized : ℤ → f.Float
  normalized raw = f.float.div (f.float.literal (shifted raw) 0) (f.float.literal (pos 8388608) 0)

  -- The aggregate, if one is complete.
  unfoldable pub take_aggregate : Option (AudioFeatures f) → ℕ → Microphone f → Microphone f
  take_aggregate none now m = m
  take_aggregate (some x) now m = publish_aggregate x now m

  -- The features of a window, if it has them.
  unfoldable pub take_frame : Option (AudioFeatures f) → ℕ → Microphone f → Microphone f
  take_frame none now m = publish_invalid now m
  take_frame (some frame) now m =
      let (aggregate, a) = AcousticAccumulator.add f nan frame m.accumulator in
      take_aggregate aggregate now (record m { accumulator = a })

  unfoldable pub take_sample : ℤ → ℕ → Microphone f → Microphone f
  take_sample raw now m =
      let samples = m.normalized_samples ++ (normalized raw ∷ []) in
      let emptied = record m { normalized_samples = [] } in
      if ltb (length samples) acoustic_frame_samples
      then record m { normalized_samples = samples }
      else take_frame (analyze samples) now emptied

  unfoldable pub take_samples : List ℤ → ℕ → Microphone f → Microphone f
  take_samples [] now m = m
  take_samples (raw ∷ raws) now m = take_samples raws now (take_sample raw now m)

  -- One round of the task: no samples is a failed or empty read.
  unfoldable pub take_read : List ℤ → ℕ → Microphone f → Microphone f
  take_read raws now m =
      let failures = m.consecutive_read_failures + 1 in
      if length raws == 0
      then if leb 4 failures
        then record (publish_invalid now m) { consecutive_read_failures = 0 }
        else record m { consecutive_read_failures = failures }
      else take_samples raws now (record m { consecutive_read_failures = 0 })

  -- `update` of a started microphone.
  unfoldable pub update : ℕ → Microphone f → Microphone f
  update now m =
      if not (m.reading.updated_at_ms == 0)
        && ltb acoustic_stale_ms (elapsed now m.reading.updated_at_ms)
      then record m {
        reading = record m.reading {
          microphone_valid = false;
          analysis_valid = false;
          category = codes "unknown";
          confidence = f.float.literal (pos 0) 0;
        };
      }
      else m
