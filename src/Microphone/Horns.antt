-- ===== src/Microphone/Horns.antt =====
-- Which sounds of the microphone can raise an alert.
use multisensory_device.Base.{
  ℕ, ◌+◌, ◌==◌, ◌&&◌, leb, elapsed, ◌≡◌, ◌≢◌, refl, Bool, true, false, not, Option, none, some,
  List, [], ◌∷◌, ◌++◌, arith, length, ltb, if◌then◌else◌, same_text,
}
use multisensory_device.Base.Int.{ℤ, pos}
use multisensory_device.Base.Text.{codes}
use multisensory_device.Config.{acoustic_frame_samples, acoustic_stale_ms}
use multisensory_device.Floats.{Floats}
use multisensory_device.AcousticTypes.{AcousticData, AudioFeatures}
use multisensory_device.AcousticAlerts.{is_eligible, event_for_category}
use multisensory_device.AcousticClassifier.Ceiling.{IsRounded, eligible_horn}
use multisensory_device.AcousticAccumulator
use multisensory_device.Microphone.{
  Microphone, publish_aggregate, publish_invalid, normalized, take_aggregate, take_frame,
  take_sample, take_samples, take_read, update,
}

-- What happens to the microphone: a read of its task, or a tick of the main loop, with the clock.
pub data Step : Type 0 where
  samples : List ℤ → ℕ → Step
  tick : ℕ → Step

module _ (f : Floats) (law : IsRounded f.float) (nan : f.Float)
    (analyze : List f.Float → Option (AudioFeatures f)) where
  abbrev pub HornsOnly : Microphone f → Type 0
  HornsOnly m =
      is_eligible f m.reading ≡ true → event_for_category m.reading.category ≡ codes "acoustic_horn"

  unknown_not_eligible :
      (d : AcousticData f) → d.category ≡ codes "unknown" → is_eligible f d ≢ true
  unfolding is_eligible event_for_category same_text
  unknown_not_eligible d c h = ground (arith, c, h)

  publish_aggregate-HornsOnly :
      (x : AudioFeatures f) (now : ℕ) (m : Microphone f)
      → HornsOnly (publish_aggregate f nan analyze x now m)
  unfolding publish_aggregate
  publish_aggregate-HornsOnly x now m h =
      eligible_horn f law x (publish_aggregate f nan analyze x now m).reading refl refl h

  publish_invalid-HornsOnly :
      (now : ℕ) (m : Microphone f) → HornsOnly (publish_invalid f nan analyze now m)
  unfolding publish_invalid
  publish_invalid-HornsOnly now m h = absurd (unknown_not_eligible _ refl h)

  if-HornsOnly :
      (b : Bool) (m n : Microphone f) → HornsOnly m → HornsOnly n → HornsOnly (if b then m else n)
  if-HornsOnly true m n h k = h
  if-HornsOnly false m n h k = k

  take_aggregate-HornsOnly :
      (x : Option (AudioFeatures f)) (now : ℕ) (m : Microphone f)
      → HornsOnly m
      → HornsOnly (take_aggregate f nan analyze x now m)
  unfolding take_aggregate
  take_aggregate-HornsOnly none now m h = h
  take_aggregate-HornsOnly (some x) now m h = publish_aggregate-HornsOnly x now m

  take_frame-HornsOnly :
      (frame : Option (AudioFeatures f)) (now : ℕ) (m : Microphone f)
      → HornsOnly m
      → HornsOnly (take_frame f nan analyze frame now m)
  unfolding take_frame
  take_frame-HornsOnly none now m h = publish_invalid-HornsOnly now m
  take_frame-HornsOnly (some frame) now m h =
      let (aggregate, a) = AcousticAccumulator.add f nan frame m.accumulator in
      take_aggregate-HornsOnly aggregate now (record m { accumulator = a }) h

  take_sample-HornsOnly :
      (raw : ℤ) (now : ℕ) (m : Microphone f)
      → HornsOnly m
      → HornsOnly (take_sample f nan analyze raw now m)
  unfolding take_sample
  take_sample-HornsOnly raw now m h =
      let window = m.normalized_samples ++ (normalized f nan analyze raw ∷ []) in
      let emptied = record m { normalized_samples = [] } in
      if-HornsOnly (ltb (length window) acoustic_frame_samples)
        (record m { normalized_samples = window })
        (take_frame f nan analyze (analyze window) now emptied) h
        (take_frame-HornsOnly (analyze window) now emptied h)

  take_samples-HornsOnly :
      (raws : List ℤ) (now : ℕ) (m : Microphone f)
      → HornsOnly m
      → HornsOnly (take_samples f nan analyze raws now m)
  unfolding take_samples
  take_samples-HornsOnly [] now m h = h
  take_samples-HornsOnly (raw ∷ raws) now m h =
      take_samples-HornsOnly raws now (take_sample f nan analyze raw now m)
        (take_sample-HornsOnly raw now m h)

  take_read-HornsOnly :
      (raws : List ℤ) (now : ℕ) (m : Microphone f)
      → HornsOnly m
      → HornsOnly (take_read f nan analyze raws now m)
  unfolding take_read
  take_read-HornsOnly raws now m h =
      let failures = m.consecutive_read_failures + 1 in
      let invalid = record (publish_invalid f nan analyze now m) {
        consecutive_read_failures = 0;
      } in
      let failed = record m { consecutive_read_failures = failures } in
      let fresh = record m { consecutive_read_failures = 0 } in
      if-HornsOnly (length raws == 0) (if leb 4 failures then invalid else failed)
        (take_samples f nan analyze raws now fresh)
        (if-HornsOnly (leb 4 failures) invalid failed (publish_invalid-HornsOnly now m) h)
        (take_samples-HornsOnly raws now fresh h)

  update-HornsOnly :
      (now : ℕ) (m : Microphone f) → HornsOnly m → HornsOnly (update f nan analyze now m)
  unfolding update
  update-HornsOnly now m h =
      let stale = record m {
        reading = record m.reading {
          microphone_valid = false;
          analysis_valid = false;
          category = codes "unknown";
          confidence = f.float.literal (pos 0) 0;
        };
      } in
      if-HornsOnly
        (not (m.reading.updated_at_ms == 0)
          && ltb acoustic_stale_ms (elapsed now m.reading.updated_at_ms))
        stale m (λ e. absurd (unknown_not_eligible stale.reading refl e)) h

  unfoldable pub step : Step → Microphone f → Microphone f
  step (samples raws now) m = take_read f nan analyze raws now m
  step (tick now) m = update f nan analyze now m

  unfoldable pub after : List Step → Microphone f → Microphone f
  after [] m = m
  after (s ∷ steps) m = after steps (step s m)

  step-HornsOnly : (s : Step) (m : Microphone f) → HornsOnly m → HornsOnly (step s m)
  unfolding step
  step-HornsOnly (samples raws now) m h = take_read-HornsOnly raws now m h
  step-HornsOnly (tick now) m h = update-HornsOnly now m h

  after-HornsOnly : (steps : List Step) (m : Microphone f) → HornsOnly m → HornsOnly (after steps m)
  unfolding after
  after-HornsOnly [] m h = h
  after-HornsOnly (s ∷ steps) m h = after-HornsOnly steps (step s m) (step-HornsOnly s m h)

  -- Whatever the microphone hears and whatever the features of its windows are, from a microphone that has
  -- published nothing yet: a result that is eligible for an alert is a horn. The alerts for sirens and for
  -- traffic, which the evaluator provides for, never come.
  pub eligible_after :
      (steps : List Step) (m : Microphone f)
      → m.reading.category ≡ codes "unknown"
      → is_eligible f (after steps m).reading ≡ true
      → event_for_category (after steps m).reading.category ≡ codes "acoustic_horn"
  eligible_after steps m c h =
      after-HornsOnly steps m (λ e. absurd (unknown_not_eligible m.reading c e)) h
