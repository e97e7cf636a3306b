-- ===== src/Microphone/Tests.antt =====
-- The theorem on the microphone at a horn, with fixed-point numbers for floats.
use multisensory_device.Base.{ℕ, zero, suc, ◌≡◌, refl, true, some, List, [], ◌∷◌, arith, same_text}
use multisensory_device.Base.Int.{pos}
use multisensory_device.Base.Text.{codes}
use multisensory_device.Floats.Fixed.{fixed_floats, fixed_point}
use multisensory_device.TelemetryData.Sample.{tenths, sound}
use multisensory_device.AcousticTypes.{AudioFeatures}
use multisensory_device.AcousticAlerts.{event_for_category, is_eligible}
use multisensory_device.AcousticClassifier.{
  classify, classify_tones, is_unusable, is_quiet, is_rumble, is_wind, is_engine, is_tonal_horn,
  horn_confidence, clamp_confidence,
}
use multisensory_device.AcousticClassifier.Ceiling.{IsRounded}
use multisensory_device.AcousticAccumulator.{
  add, noted, take_in, averaged, empty_aggregate, start, reset,
}
use multisensory_device.Microphone.{
  Microphone, publish_aggregate, take_aggregate, take_frame, take_sample, take_samples, take_read,
  update,
}
use multisensory_device.Microphone.Horns.{samples, tick, step, after, eligible_after}

rounded : IsRounded fixed_point
rounded = record {
  at_least_trans = λ x y z h k. ground (arith, h, k);
  literal_order = λ m n h k. ground (arith, h, k);
  literal_strict = λ m n h k. ground (arith, h, k);
  literal_zero = λ m h. ground (arith, h);
  add_mono = λ m n x y small small' h k. ground (arith, h, k);
  add_close = λ m n h. ground (arith, h);
  minimum_below = λ m x h. ground (arith, h);
  minimum_below_right = λ m x c h. ground (arith, h);
  maximum_below = λ x y c h k. ground (arith, h, k);
}

abbrev horn : AudioFeatures fixed_floats
horn = record {
  valid = true;
  signal_responsive = true;
  sample_rate_hz = 16000;
  window_duration_ms = 1000;
  relative_level_dbfs = sound.relative_level_dbfs;
  peak_dbfs = sound.peak_dbfs;
  clipping_ratio = tenths 0;
  crest_factor = tenths 30;
  zero_crossing_rate = tenths 1;
  spectral_centroid_hz = tenths 20000;
  spectral_flatness = fixed_floats.float.literal (pos 5) 2;
  spectral_rolloff_hz = tenths 30000;
  bands = record {
    hz80_to250 = tenths 0;
    hz250_to800 = tenths 0;
    hz800_to2000 = tenths 5;
    hz2000_to4000 = tenths 4;
    hz4000_to8000 = tenths 1;
  };
}

abbrev zeros : ℕ → List ℕ
zeros zero = []
zeros (suc n) = 1000000000 ∷ zeros n

-- One sample before the end of a window, which makes an aggregate by itself.
abbrev listening : Microphone fixed_floats
listening = record {
  reading = record sound { category = codes "unknown" };
  accumulator = start fixed_floats 0 1;
  normalized_samples = zeros 1023;
  consecutive_read_failures = 0;
}

abbrev heard : Microphone fixed_floats
heard =
    after fixed_floats rounded 0 (λ window. some horn) (samples (pos 0 ∷ []) 1000 ∷ tick 2000 ∷ [])
      listening

heard_run : is_eligible fixed_floats heard.reading ≡ true
unfolding is_eligible event_for_category same_text classify classify_tones is_unusable is_quiet
    is_rumble is_wind is_engine is_tonal_horn horn_confidence clamp_confidence after step take_read
    take_samples take_sample take_frame take_aggregate publish_aggregate update add noted take_in
    averaged empty_aggregate start reset
heard_run = refl

eligible_after_example : event_for_category heard.reading.category ≡ codes "acoustic_horn"
eligible_after_example =
    eligible_after fixed_floats rounded 0 (λ window. some horn)
      (samples (pos 0 ∷ []) 1000 ∷ tick 2000 ∷ []) listening refl heard_run
