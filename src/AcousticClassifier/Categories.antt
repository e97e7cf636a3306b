-- ===== src/AcousticClassifier/Categories.antt =====
-- The categories that the classifier gives are those that the messages allow.
use multisensory_device.Base.{
  ℕ, ◌≤◌, ◌<◌, ◌≡◌, Bool, true, false, ◌||◌, List, [], ◌∷◌, arith, length, same_text,
}
use multisensory_device.Base.Text.{codes}
use multisensory_device.Floats.{Floats}
use multisensory_device.AcousticTypes.{AudioFeatures}
use multisensory_device.AcousticClassifier.{classify, classify_tones}

-- knownAcousticCategory and validCategory: TelemetryValidator, TelemetryBuilder and
-- AcousticMessageBuilder each have a copy.
unfoldable pub is_listed : List ℕ → List (List ℕ) → Bool
is_listed category [] = false
is_listed category (candidate ∷ rest) = same_text category candidate || is_listed category rest

abbrev pub known_categories : List (List ℕ)
known_categories =
    codes "traffic"
    ∷ codes "music"
    ∷ codes "speech"
    ∷ codes "engine"
    ∷ codes "horn"
    ∷ codes "siren"
    ∷ codes "wind"
    ∷ codes "quiet"
    ∷ codes "noise"
    ∷ codes "unknown"
    ∷ []

abbrev pub known_acoustic_category : List ℕ → Bool
known_acoustic_category category = is_listed category known_categories

-- Whatever the features are, the category is one of the ten that the telemetry and the messages allow,
-- and the version is a text of 1 to 40 characters.
pub classify_known :
    (f : Floats) (x : AudioFeatures f)
    → (known_acoustic_category (classify f x).category ≡ true)
      × (0 < length (classify f x).classifier_version)
      × (length (classify f x).classifier_version ≤ 40)
unfolding classify classify_tones is_listed same_text
classify_known f x = (ground arith, ground arith, ground arith)
