-- ===== src/AcousticAlerts/Tests.antt =====
-- The theorems on alerts at a siren that lasts, with fixed-point numbers for floats.
use multisensory_device.Base.{
  ℕ, ◌≤◌, ◌≡◌, refl, true, false, List, [], ◌∷◌, ◌++◌, same_text, elapsed,
}
use multisensory_device.Base.Int.{pos, negsuc}
use multisensory_device.Base.Text.{codes}
use multisensory_device.Floats.Fixed.{fixed_floats}
use multisensory_device.AcousticTypes.{AcousticData}
use multisensory_device.AcousticAlerts.{
  AcousticAlertEvaluator, event_for_category, severity_of, is_eligible, clear_candidate,
  keep_candidate, is_due, update,
}
use multisensory_device.AcousticAlerts.Spacing.{Analysis, after, alerts, Spaced, alerts-Spaced}
use multisensory_device.AcousticAlerts.Duration.{Begun, alert_sustained}

abbrev siren : AcousticData fixed_floats
siren = record {
  relative_level_dbfs = fixed_floats.float.literal (negsuc 19) 0;
  peak_dbfs = fixed_floats.float.literal (negsuc 9) 0;
  confidence = fixed_floats.float.literal (pos 90) 2;
  microphone_valid = true;
  analysis_valid = true;
  clipping = false;
  category = codes "siren";
  classifier_version = codes "heuristic-4";
  updated_at_ms = 900;
  sample_rate_hz = 16000;
  window_duration_ms = 1000;
  clipping_ratio = 0;
  crest_factor = 0;
  zero_crossing_rate = 0;
  spectral_centroid_hz = 0;
  spectral_flatness = 0;
  spectral_rolloff_hz = 0;
  bands = record {
    hz80_to250 = 0;
    hz250_to800 = 0;
    hz800_to2000 = 0;
    hz2000_to4000 = 0;
    hz4000_to8000 = 0;
  };
}

abbrev quiet : AcousticAlertEvaluator fixed_floats
quiet = record {
  status = record {
    active = false;
    triggered = false;
    event_type = [];
    severity = codes "info";
    confidence = 0;
    duration_ms = 0;
    updated_at_ms = 0;
  };
  candidate_active = false;
  candidate_type = [];
  candidate_started_ms = 0;
  last_event_ms = 0;
}

abbrev sirens : List (Analysis fixed_floats)
sirens = (siren, 1000) ∷ (siren, 5000) ∷ []

sirens_run :
    (update fixed_floats siren 9000 (after fixed_floats sirens quiet)).status.triggered ≡ true
unfolding update after is_eligible clear_candidate keep_candidate is_due event_for_category
    same_text severity_of
sirens_run = refl

alerts_run :
    alerts fixed_floats (sirens ++ ((siren, 9000) ∷ (siren, 20000) ∷ (siren, 39000) ∷ [])) quiet
    ≡ (9000 ∷ 39000 ∷ [])
unfolding alerts update after is_eligible clear_candidate keep_candidate is_due event_for_category
    same_text severity_of
alerts_run = refl

alerts-Spaced_example : Spaced 0 (alerts fixed_floats sirens quiet)
alerts-Spaced_example = alerts-Spaced fixed_floats sirens quiet

alert_sustained_example :
    (start : ℕ) × (8000 ≤ elapsed 9000 start)
    × Begun fixed_floats (sirens ++ ((siren, 9000) ∷ [])) (event_for_category siren.category) start
alert_sustained_example = alert_sustained fixed_floats sirens siren 9000 quiet refl sirens_run
