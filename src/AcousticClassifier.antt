-- ===== src/AcousticClassifier.antt =====
-- acoustic/AcousticClassifier.cpp: a category for the features of a sound.
pub mod Ceiling
pub mod Categories
use multisensory_device.Base.{ℕ, Bool, not, ◌&&◌, ◌||◌, List, if◌then◌else◌}
use multisensory_device.Base.Text.{codes}
use multisensory_device.Base.Int.{ℤ, pos, negsuc}
use multisensory_device.Floats.{Floats}
use multisensory_device.AcousticTypes.{AudioFeatures, AcousticClassification}

abbrev pub version : List ℕ
version = codes "heuristic-4"

module _ (f : Floats) where
  open f.float use {literal, at_least, exceeds, is_finite, add, sub, mul, minimum, maximum}

  -- n / 100
  abbrev pub hundredths : ℕ → f.Float
  hundredths n = literal (pos n) 2

  abbrev thousandths : ℕ → f.Float
  thousandths n = literal (pos n) 3

  abbrev whole : ℕ → f.Float
  whole n = literal (pos n) 0

  unfoldable pub clamp_confidence : f.Float → f.Float
  clamp_confidence value = maximum (whole 0) (minimum (hundredths 85) value)

  abbrev pub result : List ℕ → f.Float → AcousticClassification f
  result category confidence = record {
    category = category;
    confidence = clamp_confidence confidence;
    classifier_version = version;
  }

  abbrev low_band : AudioFeatures f → f.Float
  low_band x = add x.bands.hz80_to250 x.bands.hz250_to800

  abbrev middle_band : AudioFeatures f → f.Float
  middle_band x = add x.bands.hz250_to800 x.bands.hz800_to2000

  abbrev presence_band : AudioFeatures f → f.Float
  presence_band x = add x.bands.hz800_to2000 x.bands.hz2000_to4000

  abbrev high_band : AudioFeatures f → f.Float
  high_band x = add x.bands.hz2000_to4000 x.bands.hz4000_to8000

  -- The tests of the source in their order. `a < b` is `b > a`, and `a <= b` is `b >= a`.
  unfoldable pub is_unusable : AudioFeatures f → Bool
  is_unusable x =
      not x.valid
      || not x.signal_responsive
      || not (is_finite x.relative_level_dbfs)
      || not (is_finite x.spectral_flatness)
      || at_least x.clipping_ratio (hundredths 1)

  unfoldable pub is_quiet : AudioFeatures f → Bool
  is_quiet x = at_least (literal (negsuc 87) 0) x.relative_level_dbfs

  unfoldable pub is_rumble : AudioFeatures f → Bool
  is_rumble x = exceeds (low_band x) (hundredths 78) && exceeds (whole 650) x.spectral_centroid_hz

  unfoldable pub is_wind : AudioFeatures f → Bool
  is_wind x =
      exceeds x.spectral_flatness (hundredths 35) || exceeds x.zero_crossing_rate (hundredths 12)

  unfoldable pub is_engine : AudioFeatures f → Bool
  is_engine x =
      exceeds (literal (pos 45) 1) x.crest_factor && exceeds (hundredths 12) x.zero_crossing_rate

  unfoldable pub is_tonal_horn : AudioFeatures f → Bool
  is_tonal_horn x =
      exceeds x.relative_level_dbfs (literal (negsuc 83) 0)
      && exceeds (presence_band x) (hundredths 72)
      && exceeds (hundredths 12) x.spectral_flatness
      && exceeds (whole 4) x.crest_factor

  unfoldable pub is_external_horn : AudioFeatures f → Bool
  is_external_horn x =
      exceeds x.relative_level_dbfs (literal (negsuc 87) 0)
      && exceeds (presence_band x) (hundredths 50)
      && exceeds x.bands.hz2000_to4000 (hundredths 40)
      && at_least x.spectral_flatness (hundredths 15)
      && at_least (hundredths 32) x.spectral_flatness
      && at_least x.zero_crossing_rate (hundredths 30)
      && at_least (hundredths 45) x.zero_crossing_rate
      && at_least x.spectral_centroid_hz (whole 2500)
      && at_least (whole 3800) x.spectral_centroid_hz

  unfoldable pub is_own_horn : AudioFeatures f → Bool
  is_own_horn x =
      exceeds x.relative_level_dbfs (literal (negsuc 77) 0)
      && exceeds (low_band x) (hundredths 55)
      && exceeds x.bands.hz250_to800 (hundredths 35)
      && at_least x.spectral_flatness (hundredths 15)
      && at_least (hundredths 32) x.spectral_flatness
      && at_least x.zero_crossing_rate (hundredths 15)
      && at_least (hundredths 30) x.zero_crossing_rate
      && at_least x.spectral_centroid_hz (whole 1000)
      && at_least (whole 2500) x.spectral_centroid_hz

  unfoldable pub is_siren : AudioFeatures f → Bool
  is_siren x =
      exceeds x.relative_level_dbfs (literal (negsuc 35) 0)
      && exceeds (middle_band x) (hundredths 70)
      && at_least x.spectral_flatness (hundredths 12)
      && exceeds (hundredths 30) x.spectral_flatness
      && exceeds x.zero_crossing_rate (hundredths 8)

  unfoldable pub is_speech : AudioFeatures f → Bool
  is_speech x =
      at_least (middle_band x) (hundredths 34)
      && at_least (presence_band x) (hundredths 40)
      && at_least x.spectral_flatness (hundredths 8)
      && exceeds (hundredths 36) x.spectral_flatness
      && at_least x.zero_crossing_rate (thousandths 25)
      && exceeds (hundredths 32) x.zero_crossing_rate
      && at_least x.spectral_centroid_hz (whole 300)
      && at_least (whole 3200) x.spectral_centroid_hz

  unfoldable pub is_traffic : AudioFeatures f → Bool
  is_traffic x =
      exceeds x.relative_level_dbfs (literal (negsuc 44) 0)
      && at_least x.spectral_centroid_hz (whole 550)
      && at_least (whole 7000) x.spectral_centroid_hz
      && at_least (high_band x) (hundredths 12)
      && (at_least x.spectral_flatness (hundredths 28)
          || at_least x.zero_crossing_rate (hundredths 30)
          || at_least (high_band x) (hundredths 32))

  unfoldable pub is_music : AudioFeatures f → Bool
  is_music x =
      at_least x.spectral_flatness (hundredths 8)
      && at_least (hundredths 38) x.spectral_flatness
      && exceeds (presence_band x) (hundredths 30)
      && exceeds (high_band x) (hundredths 8)
      && exceeds (whole 6) x.crest_factor

  unfoldable pub is_faint_speech : AudioFeatures f → Bool
  is_faint_speech x =
      at_least (middle_band x) (hundredths 28) && at_least (whole 3600) x.spectral_centroid_hz

  unfoldable pub speech_confidence : AudioFeatures f → f.Float
  speech_confidence x =
      add (hundredths 48)
        (minimum (hundredths 10) (mul (sub (middle_band x) (hundredths 34)) (hundredths 30)))

  unfoldable pub traffic_confidence : AudioFeatures f → f.Float
  traffic_confidence x =
      add
        (add (hundredths 46) (
          minimum (hundredths 8)
            (mul (maximum (whole 0) (sub x.spectral_flatness (hundredths 28))) (hundredths 35))))
        (minimum (hundredths 6) (mul (high_band x) (hundredths 12)))

  unfoldable pub music_confidence : AudioFeatures f → f.Float
  music_confidence x =
      add (hundredths 45) (minimum (hundredths 12) (mul (presence_band x) (hundredths 15)))

  unfoldable pub horn_confidence : AudioFeatures f → f.Float
  horn_confidence x =
      add (hundredths 66) (mul (sub (presence_band x) (hundredths 72)) (literal (pos 4) 1))

  -- From the test for a tonal horn on.
  unfoldable pub classify_tones : AudioFeatures f → AcousticClassification f
  classify_tones x =
      if is_tonal_horn x
      then result (codes "horn") (horn_confidence x)
      else if is_external_horn x
      then result (codes "horn") (hundredths 62)
      else if is_own_horn x
      then result (codes "horn") (hundredths 64)
      else if is_siren x
      then result (codes "siren") (hundredths 55)
      else if is_speech x
      then result (codes "speech") (speech_confidence x)
      else if is_traffic x
      then result (codes "traffic") (traffic_confidence x)
      else if is_music x
      then result (codes "music") (music_confidence x)
      else if is_faint_speech x
      then result (codes "speech") (hundredths 36)
      else result (codes "noise") (hundredths 40)

  unfoldable pub classify : AudioFeatures f → AcousticClassification f
  classify x =
      let over = sub (low_band x) (hundredths 78) in
      if is_unusable x
      then result (codes "unknown") (whole 0)
      else if is_quiet x
      then result (codes "quiet") (hundredths 80)
      else if is_rumble x && is_wind x
      then result (codes "wind") (add (hundredths 50) over)
      else if is_rumble x && is_engine x
      then result (codes "engine") (add (hundredths 55) over)
      else classify_tones x
