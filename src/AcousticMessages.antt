-- ===== src/AcousticMessages.antt =====
-- acoustic/AcousticMessageBuilder.h and .cpp: the messages about a sound. A C string is never null here, and the
-- output pointer neither.
pub mod Finite
pub mod Context
mod Tests
use multisensory_device.Base.{
  ℕ, Bool, true, false, not, ◌&&◌, ◌||◌, Option, none, some, List, [], ◌∷◌, ◌++◌, ltb, leb, ◌==◌,
  if◌then◌else◌, length, same_text,
}
use multisensory_device.Base.Text.{codes}
use multisensory_device.Base.Int.{ℤ, pos, negsuc}
use multisensory_device.Floats.{Floats}
use multisensory_device.AcousticTypes.{AcousticData, AcousticBandEnergy, AcousticAlertStatus}
use multisensory_device.AcousticClassifier.Categories.{known_acoustic_category}
use multisensory_device.MqttTopics.{is_alnum}
use multisensory_device.DeviceIdentity.{sample_text}
use multisensory_device.TelemetryBuilder.{in_range, number_of, text_of, flag_of, real_of}
use multisensory_device.JsonWriter.{
  Leaf, number, integer, real, text, flag, Value, leaf, object, Document, JsonWriter, only_if,
  serialize_to,
}

pub record AcousticMessageContext : Type 0 where
  pub device_id : List ℕ
  pub vehicle_id : List ℕ
  pub boot_id : ℕ
  pub sequence : ℕ
  pub sample_id : List ℕ
  pub uptime_ms : ℕ
  pub time_valid : Bool
  pub measured_at : List ℕ
  pub simulated : Bool

abbrev is_name_character : ℕ → Bool
is_name_character c = is_alnum c || c == b'.' || c == b'_' || c == b'-'

unfoldable pub all_characters : (ℕ → Bool) → List ℕ → Bool
all_characters allowed [] = true
all_characters allowed (c ∷ s) = allowed c && all_characters allowed s

unfoldable pub valid_identifier : List ℕ → ℕ → Bool
valid_identifier value maximum_length =
    not (length value == 0)
    && leb (length value) maximum_length
    && all_characters is_name_character value

unfoldable pub valid_base_context : AcousticMessageContext → Bool
valid_base_context c =
    valid_identifier c.device_id 64
    && valid_identifier c.vehicle_id 64
    && not (c.boot_id == 0)
    && not (c.sequence == 0)
    && (not c.time_valid || not (length c.measured_at == 0))

-- snprintf("%s:%lu:%lu:acoustic")
abbrev pub expected_sample_id : AcousticMessageContext → List ℕ
expected_sample_id c = sample_text c.device_id c.boot_id c.sequence ++ codes ":acoustic"

unfoldable pub valid_aggregate_context : AcousticMessageContext → Bool
valid_aggregate_context c =
    valid_base_context c
    && not (length (expected_sample_id c) == 0)
    && ltb (length (expected_sample_id c)) 171
    && same_text c.sample_id (expected_sample_id c)

unfoldable pub valid_event_id : List ℕ → Bool
valid_event_id event_id =
    leb 5 (length event_id)
    && leb (length event_id) 170
    && all_characters (λ c. is_name_character c || c == b':') event_id

-- The member of the wall-clock time, which is there only with a valid clock.
abbrev stamp_of : {f : Floats} → List ℕ → AcousticMessageContext → Document f
stamp_of {f} name c = only_if c.time_valid (text_of f name c.measured_at ∷ [])

module _ (f : Floats) where
  unfoldable pub valid_analysis : AcousticData f → Bool
  valid_analysis d =
      d.microphone_valid
      && d.analysis_valid
      && leb 8000 d.sample_rate_hz
      && leb d.sample_rate_hz 48000
      && leb 100 d.window_duration_ms
      && leb d.window_duration_ms 10000
      && in_range f d.relative_level_dbfs (negsuc 159) (pos 0)
      && in_range f d.peak_dbfs (negsuc 159) (pos 0)
      && in_range f d.clipping_ratio (pos 0) (pos 1)
      && in_range f d.crest_factor (pos 0) (pos 100)
      && in_range f d.zero_crossing_rate (pos 0) (pos 1)
      && in_range f d.spectral_centroid_hz (pos 0) (pos 24000)
      && in_range f d.spectral_flatness (pos 0) (pos 1)
      && in_range f d.spectral_rolloff_hz (pos 0) (pos 24000)
      && in_range f d.bands.hz80_to250 (pos 0) (pos 1)
      && in_range f d.bands.hz250_to800 (pos 0) (pos 1)
      && in_range f d.bands.hz800_to2000 (pos 0) (pos 1)
      && in_range f d.bands.hz2000_to4000 (pos 0) (pos 1)
      && in_range f d.bands.hz4000_to8000 (pos 0) (pos 1)
      && in_range f d.confidence (pos 0) (pos 1)
      && known_acoustic_category d.category
      && not (length d.classifier_version == 0)
      && leb (length d.classifier_version) 40

  abbrev pub identity_members : AcousticMessageContext → Document f
  identity_members c =
      text_of f (codes "device_id") c.device_id
      ∷ text_of f (codes "vehicle_id") c.vehicle_id
      ∷ number_of f (codes "boot_id") c.boot_id
      ∷ number_of f (codes "sequence") c.sequence
      ∷ text_of f (codes "sample_id") c.sample_id
      ∷ number_of f (codes "uptime_ms") c.uptime_ms
      ∷ flag_of f (codes "time_valid") c.time_valid
      ∷ []

  abbrev pub simulated_member : AcousticMessageContext → Document f
  simulated_member c = flag_of f (codes "simulated") c.simulated ∷ []

  unfoldable pub context_members : AcousticMessageContext → Document f
  context_members c = identity_members c ++ (stamp_of (codes "measured_at") c ++ simulated_member c)

  unfoldable pub band_members : AcousticBandEnergy f → List (List ℕ × Leaf f)
  band_members b =
      (codes "hz_80_250", real b.hz80_to250)
      ∷ (codes "hz_250_800", real b.hz250_to800)
      ∷ (codes "hz_800_2000", real b.hz800_to2000)
      ∷ (codes "hz_2000_4000", real b.hz2000_to4000)
      ∷ (codes "hz_4000_8000", real b.hz4000_to8000)
      ∷ []

  unfoldable pub analysis_members : AcousticData f → Document f
  analysis_members d =
      number_of f (codes "window_duration_ms") d.window_duration_ms
      ∷ number_of f (codes "sample_rate_hz") d.sample_rate_hz
      ∷ real_of f (codes "relative_level_dbfs") d.relative_level_dbfs
      ∷ real_of f (codes "peak_dbfs") d.peak_dbfs
      ∷ flag_of f (codes "clipping") d.clipping
      ∷ real_of f (codes "clipping_ratio") d.clipping_ratio
      ∷ real_of f (codes "crest_factor") d.crest_factor
      ∷ real_of f (codes "zero_crossing_rate") d.zero_crossing_rate
      ∷ real_of f (codes "spectral_centroid_hz") d.spectral_centroid_hz
      ∷ real_of f (codes "spectral_flatness") d.spectral_flatness
      ∷ real_of f (codes "spectral_rolloff_hz") d.spectral_rolloff_hz
      ∷ (codes "band_energy_ratio", object (band_members d.bands))
      ∷ text_of f (codes "category") d.category
      ∷ real_of f (codes "confidence") d.confidence
      ∷ text_of f (codes "classifier_version") d.classifier_version
      ∷ []

  abbrev pub aggregate_head : Document f
  aggregate_head =
      number_of f (codes "schema_version") 1
      ∷ text_of f (codes "message_type") (codes "acoustic")
      ∷ []

  abbrev pub validity_members : AcousticData f → Document f
  validity_members d =
      flag_of f (codes "replayed") false
      ∷ flag_of f (codes "mic_valid") d.microphone_valid
      ∷ flag_of f (codes "analysis_valid") (valid_analysis d)
      ∷ []

  unfoldable pub aggregate_document : AcousticMessageContext → AcousticData f → Document f
  aggregate_document c d =
      aggregate_head
      ++ (context_members c
          ++ (validity_members d ++ only_if (valid_analysis d) (analysis_members d)))

  unfoldable pub build_aggregate :
      JsonWriter f → AcousticMessageContext → AcousticData f → ℕ → Option (List ℕ)
  build_aggregate w c d output_size =
      if not (valid_aggregate_context c)
      then none
      else serialize_to w (aggregate_document c d) output_size

  unfoldable pub valid_alert : AcousticAlertStatus f → Bool
  valid_alert a =
      a.triggered
      && (same_text a.event_type (codes "acoustic_traffic")
          || same_text a.event_type (codes "acoustic_horn")
          || same_text a.event_type (codes "acoustic_siren"))
      && (same_text a.severity (codes "medium") || same_text a.severity (codes "high"))
      && in_range f a.confidence (pos 0) (pos 1)

  unfoldable pub detail_members : AcousticData f → List (List ℕ × Leaf f)
  detail_members d =
      (codes "relative_level_dbfs", real d.relative_level_dbfs)
      ∷ (codes "clipping", flag d.clipping)
      ∷ (codes "classifier_version", text d.classifier_version)
      ∷ []

  abbrev pub event_head : AcousticMessageContext → AcousticAlertStatus f → List ℕ → Document f
  event_head c a event_id =
      number_of f (codes "schema_version") 1
      ∷ text_of f (codes "message_type") (codes "event")
      ∷ text_of f (codes "event_id") event_id
      ∷ text_of f (codes "device_id") c.device_id
      ∷ text_of f (codes "vehicle_id") c.vehicle_id
      ∷ text_of f (codes "event_type") a.event_type
      ∷ text_of f (codes "severity") a.severity
      ∷ number_of f (codes "uptime_ms") c.uptime_ms
      ∷ flag_of f (codes "time_valid") c.time_valid
      ∷ []

  abbrev pub event_tail :
      AcousticMessageContext → AcousticData f → AcousticAlertStatus f → Document f
  event_tail c d a =
      number_of f (codes "duration_ms") a.duration_ms
      ∷ real_of f (codes "confidence") a.confidence
      ∷ (codes "details", object (detail_members d))
      ∷ flag_of f (codes "simulated") c.simulated
      ∷ []

  unfoldable pub event_document :
      AcousticMessageContext → AcousticData f → AcousticAlertStatus f → List ℕ → Document f
  event_document c d a event_id =
      event_head c a event_id ++ (stamp_of (codes "occurred_at") c ++ event_tail c d a)

  unfoldable pub accepts_event :
      AcousticMessageContext → AcousticData f → AcousticAlertStatus f → List ℕ → Bool
  accepts_event c d a event_id =
      valid_base_context c && valid_event_id event_id && valid_alert a && valid_analysis d

  unfoldable pub build_event :
      JsonWriter f
      → AcousticMessageContext
      → AcousticData f
      → AcousticAlertStatus f
      → List ℕ
      → ℕ
      → Option (List ℕ)
  build_event w c d a event_id output_size =
      if not (accepts_event c d a event_id)
      then none
      else serialize_to w (event_document c d a event_id) output_size
