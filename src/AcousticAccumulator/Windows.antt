-- ===== src/AcousticAccumulator/Windows.antt =====
-- When an aggregate comes, and what it counts.
use multisensory_device.Base.{
  ℕ, ◌+◌, ◌*◌, ◌/◌, ◌≤◌, ◌<◌, ◌≡◌, ◌∙◌, ap, refl, ◌&&◌, Option, none, some, List, [], ◌∷◌, arith,
  ltb, leb, if◌then◌else◌, length,
}
use multisensory_device.Floats.{Floats}
use multisensory_device.AcousticTypes.{AudioFeatures}
use multisensory_device.AcousticAccumulator.{
  AcousticFeatureAccumulator, reset, take_in, noted, aggregate, empty_aggregate, averaged, add,
  start,
}

-- The windows that count, counted by themselves.
unfoldable pub count_valid : {f : Floats} → List (AudioFeatures f) → ℕ
count_valid [] = 0
count_valid (x ∷ xs) = let rest = count_valid xs in if x.valid then rest + 1 else rest

unfoldable pub count_responsive : {f : Floats} → List (AudioFeatures f) → ℕ
count_responsive [] = 0
count_responsive (x ∷ xs) =
    let rest = count_responsive xs in if x.valid && x.signal_responsive then rest + 1 else rest

count_bounds :
    {f : Floats} (xs : List (AudioFeatures f))
    → (count_valid xs ≤ length xs) × (count_responsive xs ≤ length xs)
unfolding count_valid count_responsive
count_bounds [] = (omega arith, omega arith)
count_bounds (x ∷ xs) = ground (arith, count_bounds xs)

module _ (f : Floats) (nan : f.Float) where
  -- The accumulator after some windows, and the aggregates that came on the way.
  unfoldable pub after :
      List (AudioFeatures f) → AcousticFeatureAccumulator f → AcousticFeatureAccumulator f
  after [] a = a
  after (x ∷ xs) a = after xs (add f nan x a).1

  abbrev with_given : Option (AudioFeatures f) → List (AudioFeatures f) → List (AudioFeatures f)
  with_given none xs = xs
  with_given (some x) xs = x ∷ xs

  unfoldable pub given :
      List (AudioFeatures f) → AcousticFeatureAccumulator f → List (AudioFeatures f)
  given [] a = []
  given (x ∷ xs) a = let rest = given xs (add f nan x a).1 in with_given (add f nan x a).0 rest

  abbrev IsCounted :
      List (AudioFeatures f)
      → ℕ
      → ℕ
      → ℕ
      → ℕ
      → List (AudioFeatures f)
      → AcousticFeatureAccumulator f
      → Type 0
  IsCounted xs target frames valid responsive out a =
      (out ≡ [])
      × (a.target_frames ≡ target)
      × (a.frames ≡ frames + length xs)
      × (a.valid_frames ≡ valid + count_valid xs)
      × (a.responsive_frames ≡ responsive + count_responsive xs)

  -- One window.
  noted_lem :
      (x : AudioFeatures f) (a : AcousticFeatureAccumulator f)
      → a.frames + 1 < 65536
      → a.valid_frames ≤ a.frames
      → a.responsive_frames ≤ a.frames
      → ((noted f nan x a).target_frames ≡ a.target_frames)
        × ((noted f nan x a).frames ≡ a.frames + 1)
        × ((noted f nan x a).valid_frames
            ≡ (if x.valid then a.valid_frames + 1 else a.valid_frames))
        × ((noted f nan x a).responsive_frames ≡ (
            if x.valid && x.signal_responsive
            then a.responsive_frames + 1
            else a.responsive_frames))
  unfolding noted take_in
  noted_lem x a h v r = ground arith

  add_early :
      (x : AudioFeatures f) (a : AcousticFeatureAccumulator f)
      → a.frames + 1 < a.target_frames
      → a.target_frames < 65536
      → a.valid_frames ≤ a.frames
      → a.responsive_frames ≤ a.frames
      → add f nan x a ≡ (none, noted f nan x a)
  unfolding add
  add_early x a h k v r = ground (arith, noted_lem x a (omega arith) v r)

  before_target :
      (xs : List (AudioFeatures f)) (a : AcousticFeatureAccumulator f)
      → a.frames + length xs < a.target_frames
      → a.target_frames < 65536
      → a.valid_frames ≤ a.frames
      → a.responsive_frames ≤ a.frames
      → IsCounted xs a.target_frames a.frames a.valid_frames a.responsive_frames
          (given xs a)
          (after xs a)
  unfolding given after count_valid count_responsive
  before_target [] a h k v r = (refl, refl, omega arith, omega arith, omega arith)
  before_target (x ∷ xs) a h k v r =
      let first = add_early x a (omega arith) k v r in
      let (t, n, valid, responsive) = noted_lem x a (omega arith) v r in
      let rest =
        before_target xs (noted f nan x a) (ground (arith, t, n)) (ground (arith, t))
          (ground (arith, n, valid)) (ground (arith, n, responsive)) in
      ground (arith, first, t, n, valid, responsive, rest)

  -- The last window.
  add_last :
      (x : AudioFeatures f) (a : AcousticFeatureAccumulator f)
      → a.frames + 1 ≡ a.target_frames
      → a.target_frames < 65536
      → a.valid_frames ≤ a.frames
      → a.responsive_frames ≤ a.frames
      → add f nan x a ≡ (some (aggregate f nan (noted f nan x a)), reset f nan (noted f nan x a))
  unfolding add
  add_last x a h k v r = ground (arith, noted_lem x a (omega arith) v r)

  aggregate_lem :
      (a : AcousticFeatureAccumulator f)
      → ((aggregate f nan a).valid
          ≡ (leb (a.target_frames * 3 / 4) a.valid_frames && ltb 0 a.valid_frames))
        × ((aggregate f nan a).signal_responsive
            ≡ leb ((a.target_frames + 1) / 2) a.responsive_frames)
  unfolding averaged empty_aggregate
  aggregate_lem a = (ground arith, ground arith)

  reset_lem :
      (a : AcousticFeatureAccumulator f) (target : ℕ)
      → 0 < target
      → a.target_frames ≡ target
      → reset f nan a ≡ start f nan target
  unfolding start reset
  reset_lem a target p e = ground (arith, p, e)

  start_lem :
      (target : ℕ)
      → 0 < target
      → ((start f nan target).target_frames ≡ target)
        × ((start f nan target).frames ≡ 0)
        × ((start f nan target).valid_frames ≡ 0)
        × ((start f nan target).responsive_frames ≡ 0)
  unfolding start reset
  start_lem target p = ground arith

  -- A fresh accumulator for `target` windows, at most 65535, gives nothing for the first `target` - 1 of them;
  -- the last one gives the aggregate and leaves the accumulator fresh again. The aggregate is valid exactly if
  -- at least three quarters of the windows, rounded down, were valid, and one was; it is responsive exactly if
  -- at least half of them, rounded up, were valid and responsive.
  pub window_lem :
      (xs : List (AudioFeatures f)) (x : AudioFeatures f) (target : ℕ)
      → target ≡ length xs + 1
      → target < 65536
      → (given xs (start f nan target) ≡ [])
        × ((y : AudioFeatures f) × (add f nan x (after xs (start f nan target))
              ≡ (some y, start f nan target))
            × (y.valid
                ≡ (leb (target * 3 / 4) (count_valid (x ∷ xs)) && ltb 0 (count_valid (x ∷ xs))))
            × (y.signal_responsive ≡ leb ((target + 1) / 2) (count_responsive (x ∷ xs))))
  unfolding count_valid count_responsive
  window_lem xs x target e k =
      let fresh = start_lem target (omega arith) in
      let a = after xs (start f nan target) in
      let (out, t, n, valid, responsive) =
        before_target xs (start f nan target) (ground (arith, fresh)) (ground (arith, fresh))
          (ground (arith, fresh)) (ground (arith, fresh)) in
      let (few, fewer) = count_bounds xs in
      let v : a.valid_frames ≤ a.frames = omega (arith, valid, n, few, fresh.2, fresh.1) in
      let r : a.responsive_frames ≤ a.frames =
        omega (arith, responsive, n, fewer, fresh.3, fresh.1) in
      let b = noted f nan x a in
      let (t2, n2, v2, r2) = noted_lem x a (omega (arith, n, fresh.1)) v r in
      let target_frames : b.target_frames ≡ target = t2 ∙ t ∙ fresh.0 in
      let valid_frames : b.valid_frames ≡ (if x.valid then count_valid xs + 1 else count_valid xs) =
        ground (arith, v2, valid, fresh.2) in
      let responsive_frames : b.responsive_frames ≡ (
          if x.valid && x.signal_responsive then count_responsive xs + 1 else count_responsive xs) =
        ground (arith, r2, responsive, fresh.3) in
      let last =
        add_last x a (omega (arith, n, t, fresh.0, fresh.1)) (omega (arith, t, fresh.0)) v r in
      let again = reset_lem b target (omega arith) target_frames in
      let (sound, responds) = aggregate_lem b in
      (
        out,
        (
          aggregate f nan b,
          last ∙ ap (λ s. (some (aggregate f nan b), s)) again,
          sound
              ∙ ap (λ n. leb (n * 3 / 4) b.valid_frames && ltb 0 b.valid_frames) target_frames
              ∙ ap (λ n. leb (target * 3 / 4) n && ltb 0 n) valid_frames,
          responds
              ∙ ap (λ n. leb ((n + 1) / 2) b.responsive_frames) target_frames
              ∙ ap (λ n. leb ((target + 1) / 2) n) responsive_frames,
        ),
      )
