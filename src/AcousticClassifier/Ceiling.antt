-- ===== src/AcousticClassifier/Ceiling.antt =====
-- Which categories can reach the confidence that an alert takes.
use multisensory_device.Base.{
  ℕ, ◌+◌, ◌≤◌, ◌<◌, ◌≡◌, ◌≢◌, refl, true, false, [], arith, same_text, same_text_iff, length,
  Bool-cases, inl, inr, ap, ◌∙◌,
}
use multisensory_device.Base.Text.{codes}
use multisensory_device.Base.Int.{pos}
use multisensory_device.Floats.{Arithmetic, Floats}
use multisensory_device.AcousticTypes.{AudioFeatures, AcousticData}
use multisensory_device.AcousticClassifier.{
  hundredths, clamp_confidence, classify, classify_tones, traffic_confidence,
}
use multisensory_device.AcousticAlerts.{is_eligible, event_for_category}

-- What the C++ standard and IEEE 754 say of a floating-point type, for constants from 0 to 1 in
-- hundredths: they are ordered as what they stand for, rounding adds less than a hundredth to the sum of two
-- of them, and this sum is at least that of any two numbers that the two bound, finite ones or -infinity
-- (a NaN is bounded by nothing); std::min and std::max return one of their arguments.
pub record IsRounded {F : Type 0} (a : Arithmetic F) : Type 0 where
  pub at_least_trans :
      (x y z : F) → a.at_least x y ≡ true → a.at_least y z ≡ true → a.at_least x z ≡ true
  pub literal_order :
      (m n : ℕ) → n ≤ m → m ≤ 100 → a.at_least (a.literal (pos m) 2) (a.literal (pos n) 2) ≡ true
  pub literal_strict :
      (m n : ℕ) → n < m → m ≤ 100 → a.at_least (a.literal (pos n) 2) (a.literal (pos m) 2) ≡ false
  pub literal_zero :
      (m : ℕ) → m ≤ 100 → a.at_least (a.literal (pos m) 2) (a.literal (pos 0) 0) ≡ true
  pub add_mono :
      (m n : ℕ) (x y : F)
      → m ≤ 100
      → n ≤ 100
      → a.at_least (a.literal (pos m) 2) x ≡ true
      → a.at_least (a.literal (pos n) 2) y ≡ true
      → a.at_least (a.add (a.literal (pos m) 2) (a.literal (pos n) 2)) (a.add x y) ≡ true
  pub add_close :
      (m n : ℕ)
      → m + n < 100
      → a.at_least
          (a.literal (pos (m + n + 1)) 2)
          (a.add (a.literal (pos m) 2) (a.literal (pos n) 2))
        ≡ true
  pub minimum_below :
      (m : ℕ) (x : F)
      → m ≤ 100
      → a.at_least (a.literal (pos m) 2) (a.minimum (a.literal (pos m) 2) x) ≡ true
  pub minimum_below_right :
      (m : ℕ) (x c : F)
      → a.at_least c x ≡ true
      → a.at_least c (a.minimum (a.literal (pos m) 2) x) ≡ true
  pub maximum_below :
      (x y c : F)
      → a.at_least c x ≡ true
      → a.at_least c y ≡ true
      → a.at_least c (a.maximum x y) ≡ true

horn_event : event_for_category (codes "horn") ≡ codes "acoustic_horn"
unfolding event_for_category same_text
horn_event = refl

module _ (f : Floats) (law : IsRounded f.float) where
  -- A confidence that is at most 0.62 before it is clamped is below 0.68 afterwards.
  clamped_low :
      (x : f.Float)
      → f.float.at_least (hundredths f 62) x ≡ true
      → f.float.at_least (clamp_confidence f x) (hundredths f 68) ≡ false
  unfolding clamp_confidence
  clamped_low x h =
      let zeroed = law.literal_zero 62 (omega arith) in
      let below =
        law.maximum_below (f.float.literal (pos 0) 0) (f.float.minimum (hundredths f 85) x)
          (hundredths f 62) zeroed (law.minimum_below_right 85 x (hundredths f 62) h) in
      let strict = law.literal_strict 68 62 (omega arith) (omega arith) in
      ground (
        arith,
        below,
        strict,
        law.at_least_trans (hundredths f 62) (clamp_confidence f x) (hundredths f 68),
      )

  below_sum :
      (m n : ℕ) (x y : f.Float)
      → m + n < 100
      → f.float.at_least (hundredths f m) x ≡ true
      → f.float.at_least (hundredths f n) y ≡ true
      → f.float.at_least (hundredths f (m + n + 1)) (f.float.add x y) ≡ true
  below_sum m n x y h p q =
      law.at_least_trans (hundredths f (m + n + 1)) (f.float.add (hundredths f m) (hundredths f n))
        (f.float.add x y) (law.add_close m n h)
        (law.add_mono m n x y (omega (arith, h)) (omega (arith, h)) p q)

  traffic_low :
      (x : AudioFeatures f) → f.float.at_least (hundredths f 62) (traffic_confidence f x) ≡ true
  unfolding traffic_confidence
  traffic_low x =
      let flat =
        f.float.mul
          (f.float.maximum (f.float.literal (pos 0) 0)
            (f.float.sub x.spectral_flatness (hundredths f 28)))
          (hundredths f 35) in
      let bright =
        f.float.mul (f.float.add x.bands.hz2000_to4000 x.bands.hz4000_to8000) (hundredths f 12) in
      let first =
        below_sum 46 8 (hundredths f 46) (f.float.minimum (hundredths f 8) flat) (omega arith)
          (law.literal_order 46 46 (omega arith) (omega arith))
          (law.minimum_below 8 flat (omega arith)) in
      below_sum 55 6 (f.float.add (hundredths f 46) (f.float.minimum (hundredths f 8) flat))
        (f.float.minimum (hundredths f 6) bright) (omega arith) first
        (law.minimum_below 6 bright (omega arith))

  -- Traffic and sirens stay below the confidence of an alert.
  low_tones :
      (x : AudioFeatures f)
      → (classify f x).category ≢ codes "horn"
      → event_for_category (classify f x).category ≢ []
      → f.float.at_least (classify f x).confidence (hundredths f 68) ≡ false
  unfolding classify classify_tones event_for_category same_text
  low_tones x h k =
      let siren =
        clamped_low (hundredths f 55) (law.literal_order 62 55 (omega arith) (omega arith)) in
      let traffic = clamped_low (traffic_confidence f x) (traffic_low x) in
      ground (arith, siren, traffic, h, k)

  -- With the category and the confidence that the classifier gives, a sound is eligible for an alert only if
  -- it is a horn: the alerts for sirens and for traffic, which the evaluator provides for, never come.
  pub eligible_horn :
      (x : AudioFeatures f) (sound : AcousticData f)
      → sound.category ≡ (classify f x).category
      → sound.confidence ≡ (classify f x).confidence
      → is_eligible f sound ≡ true
      → event_for_category sound.category ≡ codes "acoustic_horn"
  unfolding is_eligible
  eligible_horn x sound c d e =
      elim (Bool-cases (same_text (classify f x).category (codes "horn"))) [
        | inl y ↦ rw (c, (same_text_iff (classify f x).category (codes "horn")).0 y, horn_event)
        | inr n ↦
            let other : (classify f x).category ≢ codes "horn" =
              λ k. ground (arith, n, (same_text_iff (classify f x).category (codes "horn")).1 k) in
            let event : event_for_category (classify f x).category ≢ [] =
              λ k. ground (arith, e, ap length (ap event_for_category c ∙ k)) in
            absurd (ground (arith, e, d, low_tones x other event))
      ]
