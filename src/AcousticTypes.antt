-- ===== src/AcousticTypes.antt =====
-- acoustic/AcousticTypes.h. A C string that is never null is its bytes.
use multisensory_device.Base.{ℕ, Bool, List}
use multisensory_device.Floats.{Floats}

pub record AcousticBandEnergy (f : Floats) : Type 0 where
  pub hz80_to250 : f.Float
  pub hz250_to800 : f.Float
  pub hz800_to2000 : f.Float
  pub hz2000_to4000 : f.Float
  pub hz4000_to8000 : f.Float

pub record AudioFeatures (f : Floats) : Type 0 where
  pub valid : Bool
  pub signal_responsive : Bool
  pub sample_rate_hz : ℕ
  pub window_duration_ms : ℕ
  pub relative_level_dbfs : f.Float
  pub peak_dbfs : f.Float
  pub clipping_ratio : f.Float
  pub crest_factor : f.Float
  pub zero_crossing_rate : f.Float
  pub spectral_centroid_hz : f.Float
  pub spectral_flatness : f.Float
  pub spectral_rolloff_hz : f.Float
  pub bands : AcousticBandEnergy f

pub record AcousticData (f : Floats) : Type 0 where
  pub relative_level_dbfs : f.Float
  pub peak_dbfs : f.Float
  pub confidence : f.Float
  pub microphone_valid : Bool
  pub analysis_valid : Bool
  pub clipping : Bool
  pub category : List ℕ
  pub classifier_version : List ℕ
  pub updated_at_ms : ℕ
  pub sample_rate_hz : ℕ
  pub window_duration_ms : ℕ
  pub clipping_ratio : f.Float
  pub crest_factor : f.Float
  pub zero_crossing_rate : f.Float
  pub spectral_centroid_hz : f.Float
  pub spectral_flatness : f.Float
  pub spectral_rolloff_hz : f.Float
  pub bands : AcousticBandEnergy f

pub record AcousticClassification (f : Floats) : Type 0 where
  pub category : List ℕ
  pub confidence : f.Float
  pub classifier_version : List ℕ

pub record AcousticAlertStatus (f : Floats) : Type 0 where
  pub active : Bool
  pub triggered : Bool
  pub event_type : List ℕ
  pub severity : List ℕ
  pub confidence : f.Float
  pub duration_ms : ℕ
  pub updated_at_ms : ℕ
