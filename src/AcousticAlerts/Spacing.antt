-- ===== src/AcousticAlerts/Spacing.antt =====
-- An alert stands for a sound that lasted, and alerts keep their distance.
use multisensory_device.Base.{
  ℕ, ◌≤◌, ◌≡◌, ◌⊎◌, inl, inr, Bool, true, false, List, [], ◌∷◌, arith, ◌==◌, if◌then◌else◌, sym,
  subst, elapsed, All, Bool-cases,
}
use multisensory_device.Floats.{Floats}
use multisensory_device.AcousticTypes.{AcousticData}
use multisensory_device.AcousticAlerts.{
  AcousticAlertEvaluator, event_for_category, is_eligible, clear_candidate, keep_candidate, is_due,
  update,
}

-- One analysis: the sound, and the moment of its evaluation.
abbrev pub Analysis : Floats → Type 0
Analysis f = AcousticData f × ℕ

module _ (f : Floats) where
  unfoldable pub after : List (Analysis f) → AcousticAlertEvaluator f → AcousticAlertEvaluator f
  after [] e = e
  after ((sound, now) ∷ rest) e = after rest (update f sound now e)

  -- The moments of the alerts.
  unfoldable pub alerts : List (Analysis f) → AcousticAlertEvaluator f → List ℕ
  alerts [] e = []
  alerts ((sound, now) ∷ rest) e =
      let e1 = update f sound now e in
      let later = alerts rest e1 in if e1.status.triggered then now ∷ later else later

  -- Every analysis of the list is eligible and of one category.
  abbrev pub Sustains : List ℕ → List (Analysis f) → Type 0
  Sustains event_type =
      All (λ a. (is_eligible f a.0 ≡ true) × (event_for_category a.0.category ≡ event_type))

abbrev pub Spaced : ℕ → List ℕ → Type 0
Spaced last [] = Unit {0}
Spaced last (now ∷ rest) = ((last ≡ 0) ⊎ (30000 ≤ elapsed now last)) × Spaced now rest

module _ (f : Floats) where
  last-triggered :
      (sound : AcousticData f) (now : ℕ) (e : AcousticAlertEvaluator f)
      → (update f sound now e).status.triggered ≡ true
      → ((update f sound now e).last_event_ms ≡ now)
        × ((e.last_event_ms ≡ 0) ⊎ (30000 ≤ elapsed now e.last_event_ms))
  unfolding update is_due clear_candidate keep_candidate
  last-triggered sound now e h = (
    ground (arith, h),
    elim (Bool-cases (e.last_event_ms == 0)) [
      | inl z ↦ inl (ground (arith, z))
      | inr z ↦ inr (ground (arith, z, h))
    ],
  )

  last-silent :
      (sound : AcousticData f) (now : ℕ) (e : AcousticAlertEvaluator f)
      → (update f sound now e).status.triggered ≡ false
      → (update f sound now e).last_event_ms ≡ e.last_event_ms
  unfolding update clear_candidate keep_candidate
  last-silent sound now e h = ground (arith, h)

  -- In any run, each alert comes at least half a minute after the one before, unless the millisecond clock
  -- read 0 then. The first one is measured against the last alert before the run.
  pub alerts-Spaced :
      (analyses : List (Analysis f)) (e : AcousticAlertEvaluator f)
      → Spaced e.last_event_ms (alerts f analyses e)
  unfolding alerts
  alerts-Spaced [] e = tt
  alerts-Spaced ((sound, now) ∷ rest) e =
      let e1 = update f sound now e in
      let later = alerts f rest e1 in
      let spaced = alerts-Spaced rest e1 in
      let Chosen = λ (b : Bool). Spaced e.last_event_ms (if b then now ∷ later else later) in
      elim (Bool-cases e1.status.triggered) [
        | inl t ↦
            let (last, gap) = last-triggered sound now e t in
            subst Chosen (sym t) (gap, subst (λ last. Spaced last later) last spaced)
        | inr t ↦
            subst Chosen (sym t)
              (subst (λ last. Spaced last later) (last-silent sound now e t) spaced)
      ]
