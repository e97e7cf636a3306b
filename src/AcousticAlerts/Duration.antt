-- ===== src/AcousticAlerts/Duration.antt =====
-- An alert stands for a sound that lasted.
use multisensory_device.Base.{
  ℕ, ◌≤◌, ◌≡◌, ◌⊎◌, inl, inr, refl, true, false, not, ◌||◌, List, [], ◌∷◌, ◌++◌, arith, elapsed,
  same_text, same_text_iff, All-append, Bool-cases, subst, append_assoc, append-nil, sym,
}
use multisensory_device.Floats.{Floats}
use multisensory_device.AcousticTypes.{AcousticData}
use multisensory_device.AcousticAlerts.{
  AcousticAlertEvaluator, event_for_category, is_eligible, clear_candidate, keep_candidate, is_due,
  update,
}
use multisensory_device.AcousticAlerts.Spacing.{Analysis, Sustains, after}

module _ (f : Floats) where
  abbrev pub Begun : List (Analysis f) → List ℕ → ℕ → Type 0
  Begun trace event_type start =
      (before : List (Analysis f)) × (held : List (Analysis f)) × (first : AcousticData f) × (trace
        ≡ before ++ ((first, start) ∷ held))
      × Sustains f event_type ((first, start) ∷ held)

  -- The trace up to now ends in a time of eligible analyses of the candidate's type, which began when the
  -- candidate did.
  abbrev Held : List (Analysis f) → AcousticAlertEvaluator f → Type 0
  Held trace e = (e.candidate_active ≡ false) ⊎ Begun trace e.candidate_type e.candidate_started_ms

  -- The candidate goes on.
  kept :
      (sound : AcousticData f) (now : ℕ) (e : AcousticAlertEvaluator f)
      → is_eligible f sound ≡ true
      → e.candidate_active ≡ true
      → e.candidate_type ≡ event_for_category sound.category
      → let e' = update f sound now e in
        (e'.candidate_type ≡ e.candidate_type) × (e'.candidate_started_ms ≡ e.candidate_started_ms)
  unfolding update keep_candidate
  kept sound now e h a t =
      let same : same_text e.candidate_type (event_for_category sound.category) ≡ true =
        (same_text_iff e.candidate_type (event_for_category sound.category)).1 t in
      (ground (arith, h, a, same), ground (arith, h, a, same))

  -- Another one begins.
  begun :
      (sound : AcousticData f) (now : ℕ) (e : AcousticAlertEvaluator f)
      → is_eligible f sound ≡ true
      → (not e.candidate_active
          || not (same_text e.candidate_type (event_for_category sound.category)))
        ≡ true
      → let e' = update f sound now e in
        (e'.candidate_type ≡ event_for_category sound.category) × (e'.candidate_started_ms ≡ now)
  unfolding update keep_candidate
  begun sound now e h a = (ground (arith, h, a), ground (arith, h, a))

  dropped :
      (sound : AcousticData f) (now : ℕ) (e : AcousticAlertEvaluator f)
      → is_eligible f sound ≡ false
      → (update f sound now e).candidate_active ≡ false
  unfolding update clear_candidate
  dropped sound now e h = ground (arith, h)

  triggered_facts :
      (sound : AcousticData f) (now : ℕ) (e : AcousticAlertEvaluator f)
      → (update f sound now e).status.triggered ≡ true
      → let e' = update f sound now e in
        (e'.candidate_active ≡ true)
        × (e'.candidate_type ≡ event_for_category sound.category)
        × (8000 ≤ elapsed now e'.candidate_started_ms)
  unfolding update keep_candidate clear_candidate is_due
  triggered_facts sound now e h = (
    ground (arith, h),
    ground (arith, h, (same_text_iff e.candidate_type (event_for_category sound.category)).0),
    ground (arith, h),
  )

  retyped :
      {t : List (Analysis f)} {a a' : List ℕ} {b b' : ℕ}
      → a' ≡ a
      → b' ≡ b
      → Begun t a b
      → Begun t a' b'
  retyped {t} {a} {a'} {b} {b'} p q h =
      subst (λ a. Begun t a b') (sym p) (subst (λ b. Begun t a b) (sym q) h)

  update-Begun :
      (trace : List (Analysis f)) (sound : AcousticData f) (now : ℕ) (e : AcousticAlertEvaluator f)
      → is_eligible f sound ≡ true
      → Held trace e
      → let e' = update f sound now e in
        Begun (trace ++ ((sound, now) ∷ [])) e'.candidate_type e'.candidate_started_ms
  update-Begun trace sound now e y h =
      let event_type = event_for_category sound.category in
      elim (Bool-cases (not e.candidate_active || not (same_text e.candidate_type event_type))) [
        | inl new ↦
            let (type, start) = begun sound now e y new in
            retyped type start (trace, [], sound, refl, ((y, refl), tt))
        | inr old ↦ elim h [
          | inl none ↦ absurd (ground (arith, none, old))
          | inr (before, held, first, split, sustained) ↦
              let active : e.candidate_active ≡ true = ground (arith, old) in
              let same : e.candidate_type ≡ event_type =
                ground (arith, old, (same_text_iff e.candidate_type event_type).0) in
              let (type, start) = kept sound now e y active same in
              let whole : trace ++ ((sound, now) ∷ [])
                  ≡ before ++ ((first, e.candidate_started_ms) ∷ (held ++ ((sound, now) ∷ []))) =
                rw (
                  split,
                  append_assoc before ((first, e.candidate_started_ms) ∷ held) ((sound, now) ∷ []),
                ) in
              let tail =
                All-append
                  (λ a.
                    (is_eligible f a.0 ≡ true)
                    × (event_for_category a.0.category ≡ e.candidate_type))
                  held ((sound, now) ∷ []) sustained.1 ((y, sym same), tt) in
              retyped type start
                (before, held ++ ((sound, now) ∷ []), first, whole, (sustained.0, tail))
        ]
      ]

  update-Held :
      (trace : List (Analysis f)) (sound : AcousticData f) (now : ℕ) (e : AcousticAlertEvaluator f)
      → Held trace e
      → Held (trace ++ ((sound, now) ∷ [])) (update f sound now e)
  update-Held trace sound now e h = elim (Bool-cases (is_eligible f sound)) [
    | inl y ↦ inr (update-Begun trace sound now e y h)
    | inr n ↦ inl (dropped sound now e n)
  ]

  after-Held :
      (trace analyses : List (Analysis f)) (e : AcousticAlertEvaluator f)
      → Held trace e
      → Held (trace ++ analyses) (after f analyses e)
  unfolding after
  after-Held trace [] e h = rw (append-nil trace) h
  after-Held trace ((sound, now) ∷ rest) e h =
      let next =
        after-Held (trace ++ ((sound, now) ∷ [])) rest (update f sound now e)
          (update-Held trace sound now e h) in
      subst (λ t. Held t (after f rest (update f sound now e)))
        (append_assoc trace ((sound, now) ∷ []) rest) next

  -- An alert at the end of a run that began without a candidate means: the run ends in analyses that are all
  -- eligible and of the alert's category, and the first of them lies at least eight seconds back.
  pub alert_sustained :
      (analyses : List (Analysis f)) (sound : AcousticData f) (now : ℕ)
      (e : AcousticAlertEvaluator f)
      → e.candidate_active ≡ false
      → (update f sound now (after f analyses e)).status.triggered ≡ true
      → (start : ℕ) × (8000 ≤ elapsed now start)
        × Begun (analyses ++ ((sound, now) ∷ [])) (event_for_category sound.category) start
  alert_sustained analyses sound now e h t =
      let e1 = after f analyses e in
      let e2 = update f sound now e1 in
      let (active, type, long) = triggered_facts sound now e1 t in
      elim (update-Held analyses sound now e1 (after-Held [] analyses e (inl h))) [
        | inl idle ↦ absurd (ground (arith, idle, active))
        | inr begun ↦ (e2.candidate_started_ms, long, retyped (sym type) refl begun)
      ]
