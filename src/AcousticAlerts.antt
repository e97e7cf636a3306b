-- ===== src/AcousticAlerts.antt =====
-- acoustic/AcousticAlertEvaluator.h and .cpp: an alert for a sound that lasts.
pub mod Spacing
pub mod Duration
mod Tests
use multisensory_device.Base.{
  ℕ, Bool, true, false, not, ◌&&◌, ◌||◌, List, [], leb, ◌==◌, if◌then◌else◌, length, elapsed,
  same_text,
}
use multisensory_device.Base.Text.{codes}
use multisensory_device.Base.Int.{pos, negsuc}
use multisensory_device.Floats.{Floats}
use multisensory_device.AcousticTypes.{AcousticData, AcousticAlertStatus}
use multisensory_device.Config.{acoustic_alert_required_duration_ms, acoustic_alert_cooldown_ms}

-- ACOUSTIC_ALERT_MIN_LEVEL_DBFS and ACOUSTIC_ALERT_MIN_CONFIDENCE
abbrev pub min_level_dbfs : (f : Floats) → f.Float
min_level_dbfs f = f.float.literal (negsuc 39) 0

abbrev pub min_confidence : (f : Floats) → f.Float
min_confidence f = f.float.literal (pos 68) 2

pub record AcousticAlertEvaluator (f : Floats) : Type 0 where
  pub status : AcousticAlertStatus f
  pub candidate_active : Bool
  pub candidate_type : List ℕ
  pub candidate_started_ms : ℕ
  pub last_event_ms : ℕ

unfoldable pub event_for_category : List ℕ → List ℕ
event_for_category category =
    if same_text category (codes "traffic")
    then codes "acoustic_traffic"
    else if same_text category (codes "horn")
    then codes "acoustic_horn"
    else if same_text category (codes "siren")
    then codes "acoustic_siren"
    else []

unfoldable pub severity_of : List ℕ → List ℕ
severity_of event_type =
    if same_text event_type (codes "acoustic_siren") then codes "high" else codes "medium"

module _ (f : Floats) where
  unfoldable pub is_eligible : AcousticData f → Bool
  is_eligible sound =
      sound.microphone_valid
      && sound.analysis_valid
      && not sound.clipping
      && f.float.at_least sound.relative_level_dbfs (min_level_dbfs f)
      && f.float.at_least sound.confidence (min_confidence f)
      && not (length (event_for_category sound.category) == 0)

  unfoldable pub clear_candidate : AcousticAlertEvaluator f → AcousticAlertEvaluator f
  clear_candidate e = record e {
    candidate_active = false;
    candidate_type = [];
    candidate_started_ms = 0;
  }

  -- A candidate of this type goes on, or one begins.
  unfoldable pub keep_candidate : List ℕ → ℕ → AcousticAlertEvaluator f → AcousticAlertEvaluator f
  keep_candidate event_type now e =
      if not e.candidate_active || not (same_text e.candidate_type event_type)
      then record e {
        candidate_active = true;
        candidate_type = event_type;
        candidate_started_ms = now;
      }
      else e

  unfoldable pub is_due : ℕ → ℕ → ℕ → Bool
  is_due now started last =
      leb acoustic_alert_required_duration_ms (elapsed now started)
      && (last == 0 || leb acoustic_alert_cooldown_ms (elapsed now last))

  -- The status is a copy of the object's; it is read there.
  unfoldable pub update : AcousticData f → ℕ → AcousticAlertEvaluator f → AcousticAlertEvaluator f
  update sound now e =
      let event_type = event_for_category sound.category in
      let cleared = clear_candidate e in
      let kept = keep_candidate event_type now e in
      let due = is_due now kept.candidate_started_ms e.last_event_ms in
      if not (is_eligible sound)
      then record cleared {
        status = record (e.status) {
          triggered = false;
          updated_at_ms = now;
          active = false;
          duration_ms = 0;
        };
      }
      else record kept {
        status = record {
          active = true;
          triggered = due;
          event_type = event_type;
          severity = severity_of event_type;
          confidence = sound.confidence;
          duration_ms = elapsed now kept.candidate_started_ms;
          updated_at_ms = now;
        };
        last_event_ms = if due then now else e.last_event_ms;
      }
