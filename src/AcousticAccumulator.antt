-- ===== src/AcousticAccumulator.antt =====
-- acoustic/AcousticFeatureAccumulator.h and .cpp: the features of a number of windows, put together.
pub mod Windows
mod Tests
use multisensory_device.Base.{
  ℕ, ◌+◌, ◌*◌, ◌/◌, ◌%◌, Bool, true, false, ◌&&◌, Option, none, some, ltb, leb, ◌==◌, not,
  if◌then◌else◌, add32,
}
use multisensory_device.Base.Int.{pos, negsuc}
use multisensory_device.Floats.{Floats}
use multisensory_device.AcousticTypes.{AudioFeatures, AcousticBandEnergy}

pub record AcousticFeatureAccumulator (f : Floats) : Type 0 where
  pub target_frames : ℕ
  pub frames : ℕ
  pub valid_frames : ℕ
  pub responsive_frames : ℕ
  pub sample_rate_hz : ℕ
  pub duration_ms : ℕ
  pub linear_power_sum : f.Double
  pub maximum_peak_dbfs : f.Float
  pub clipping_ratio_sum : f.Double
  pub crest_factor_sum : f.Double
  pub zero_crossing_sum : f.Double
  pub centroid_sum : f.Double
  pub flatness_sum : f.Double
  pub rolloff_sum : f.Double
  pub band_sums : AcousticBandEnergy f

-- ++ on a uint16_t
abbrev pub next16 : ℕ → ℕ
next16 n = (n + 1) % 65536

-- `nan` is NAN.
module _ (f : Floats) (nan : f.Float) where
  abbrev pub no_bands : f.Float → AcousticBandEnergy f
  no_bands x = record {
    hz80_to250 = x;
    hz250_to800 = x;
    hz800_to2000 = x;
    hz2000_to4000 = x;
    hz4000_to8000 = x;
  }

  -- AudioFeatures{}
  abbrev pub no_features : AudioFeatures f
  no_features = record {
    valid = false;
    signal_responsive = false;
    sample_rate_hz = 0;
    window_duration_ms = 0;
    relative_level_dbfs = nan;
    peak_dbfs = nan;
    clipping_ratio = nan;
    crest_factor = nan;
    zero_crossing_rate = nan;
    spectral_centroid_hz = nan;
    spectral_flatness = nan;
    spectral_rolloff_hz = nan;
    bands = no_bands nan;
  }

  unfoldable pub reset : AcousticFeatureAccumulator f → AcousticFeatureAccumulator f
  reset a = record {
    target_frames = a.target_frames;
    frames = 0;
    valid_frames = 0;
    responsive_frames = 0;
    sample_rate_hz = 0;
    duration_ms = 0;
    linear_power_sum = f.double.literal (pos 0) 0;
    maximum_peak_dbfs = f.float.literal (negsuc 159) 0;
    clipping_ratio_sum = f.double.literal (pos 0) 0;
    crest_factor_sum = f.double.literal (pos 0) 0;
    zero_crossing_sum = f.double.literal (pos 0) 0;
    centroid_sum = f.double.literal (pos 0) 0;
    flatness_sum = f.double.literal (pos 0) 0;
    rolloff_sum = f.double.literal (pos 0) 0;
    band_sums = no_bands (f.float.literal (pos 0) 0);
  }

  -- A double to which a float is added.
  abbrev plus : f.Double → f.Float → f.Double
  plus sum x = f.double.add sum (f.to_double x)

  abbrev add_bands : AcousticBandEnergy f → AcousticBandEnergy f → AcousticBandEnergy f
  add_bands a b = record {
    hz80_to250 = f.float.add a.hz80_to250 b.hz80_to250;
    hz250_to800 = f.float.add a.hz250_to800 b.hz250_to800;
    hz800_to2000 = f.float.add a.hz800_to2000 b.hz800_to2000;
    hz2000_to4000 = f.float.add a.hz2000_to4000 b.hz2000_to4000;
    hz4000_to8000 = f.float.add a.hz4000_to8000 b.hz4000_to8000;
  }

  -- The part of `add` for a valid window.
  unfoldable pub take_in :
      AudioFeatures f → AcousticFeatureAccumulator f → AcousticFeatureAccumulator f
  take_in x a = record {
    target_frames = a.target_frames;
    frames = a.frames;
    valid_frames = next16 a.valid_frames;
    responsive_frames =
        if x.signal_responsive then next16 a.responsive_frames else a.responsive_frames;
    sample_rate_hz = x.sample_rate_hz;
    duration_ms = add32 a.duration_ms x.window_duration_ms;
    linear_power_sum = f.double.add a.linear_power_sum (
        f.power_of_ten
          (f.double.div (f.to_double x.relative_level_dbfs) (f.double.literal (pos 10) 0)));
    maximum_peak_dbfs = f.float.maximum a.maximum_peak_dbfs x.peak_dbfs;
    clipping_ratio_sum = plus a.clipping_ratio_sum x.clipping_ratio;
    crest_factor_sum = plus a.crest_factor_sum x.crest_factor;
    zero_crossing_sum = plus a.zero_crossing_sum x.zero_crossing_rate;
    centroid_sum = plus a.centroid_sum x.spectral_centroid_hz;
    flatness_sum = plus a.flatness_sum x.spectral_flatness;
    rolloff_sum = plus a.rolloff_sum x.spectral_rolloff_hz;
    band_sums = add_bands a.band_sums x.bands;
  }

  abbrev inverse : AcousticFeatureAccumulator f → f.Float
  inverse a = f.float.div (f.float.literal (pos 1) 0) (f.float_of a.valid_frames)

  -- static_cast<float>(sum * inverse)
  abbrev mean : f.Double → AcousticFeatureAccumulator f → f.Float
  mean sum a = f.to_float (f.double.mul sum (f.to_double (inverse a)))

  -- The aggregate without and with valid windows.
  unfoldable pub empty_aggregate : AcousticFeatureAccumulator f → AudioFeatures f
  empty_aggregate a = record no_features {
    valid = leb (a.target_frames * 3 / 4) a.valid_frames && ltb 0 a.valid_frames;
    signal_responsive = leb ((a.target_frames + 1) / 2) a.responsive_frames;
    sample_rate_hz = a.sample_rate_hz;
    window_duration_ms = a.duration_ms;
  }

  unfoldable pub averaged : AcousticFeatureAccumulator f → AudioFeatures f → AudioFeatures f
  averaged a x = record x {
    relative_level_dbfs = f.to_float (
        f.double.mul (f.double.literal (pos 10) 0) (
          f.log10 (
            f.double.maximum (f.double.literal (pos 1) 16)
              (f.double.div a.linear_power_sum (f.double_of a.valid_frames)))));
    peak_dbfs = a.maximum_peak_dbfs;
    clipping_ratio = mean a.clipping_ratio_sum a;
    crest_factor = mean a.crest_factor_sum a;
    zero_crossing_rate = mean a.zero_crossing_sum a;
    spectral_centroid_hz = mean a.centroid_sum a;
    spectral_flatness = mean a.flatness_sum a;
    spectral_rolloff_hz = mean a.rolloff_sum a;
    bands = record {
      hz80_to250 = f.float.mul a.band_sums.hz80_to250 (inverse a);
      hz250_to800 = f.float.mul a.band_sums.hz250_to800 (inverse a);
      hz800_to2000 = f.float.mul a.band_sums.hz800_to2000 (inverse a);
      hz2000_to4000 = f.float.mul a.band_sums.hz2000_to4000 (inverse a);
      hz4000_to8000 = f.float.mul a.band_sums.hz4000_to8000 (inverse a);
    };
  }

  abbrev pub aggregate : AcousticFeatureAccumulator f → AudioFeatures f
  aggregate a = if ltb 0 a.valid_frames then averaged a (empty_aggregate a) else empty_aggregate a

  -- The start of `add`: the window is counted, and taken in if it is valid.
  unfoldable pub noted :
      AudioFeatures f → AcousticFeatureAccumulator f → AcousticFeatureAccumulator f
  noted x a =
      let counted = record a { frames = next16 a.frames } in
      if x.valid then take_in x counted else counted

  -- `none` is the result `false`.
  unfoldable pub add :
      AudioFeatures f
      → AcousticFeatureAccumulator f
      → Option (AudioFeatures f) × AcousticFeatureAccumulator f
  add x a =
      let a1 = noted x a in
      if ltb a1.frames a1.target_frames then (none, a1) else (some (aggregate a1), reset a1)

  -- The constructor, whose members start as `reset` leaves them.
  unfoldable pub start : ℕ → AcousticFeatureAccumulator f
  start target_frames = reset record {
    target_frames = if target_frames == 0 then 1 else target_frames;
    frames = 0;
    valid_frames = 0;
    responsive_frames = 0;
    sample_rate_hz = 0;
    duration_ms = 0;
    linear_power_sum = f.double.literal (pos 0) 0;
    maximum_peak_dbfs = f.float.literal (negsuc 159) 0;
    clipping_ratio_sum = f.double.literal (pos 0) 0;
    crest_factor_sum = f.double.literal (pos 0) 0;
    zero_crossing_sum = f.double.literal (pos 0) 0;
    centroid_sum = f.double.literal (pos 0) 0;
    flatness_sum = f.double.literal (pos 0) 0;
    rolloff_sum = f.double.literal (pos 0) 0;
    band_sums = no_bands (f.float.literal (pos 0) 0);
  }
