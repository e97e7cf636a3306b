-- ===== src/Sensors/GpsClock.antt =====
-- The date of the satellites, as the clock takes it.
use multisensory_device.Base.{ℕ, ◌-◌, ◌≤◌, ◌≡◌, sym, ap, ◌∙◌, subst, true, List, arith}
use multisensory_device.Base.Int.{pos}
use multisensory_device.Floats.{Floats}
use multisensory_device.TelemetryData.{GpsData}
use multisensory_device.TimeService.{BrokenTime, broken_time}
use multisensory_device.Sensors.Gps.{
  TinyGps, Report, GpsNeo6m, note_quality, fresh_utc, note_utc, note_fix, note_silence, read_bytes,
  update,
}

-- A calendar-like date from 2020 on: mktime has nothing to carry over but a day that its month lacks.
abbrev pub IsDate : BrokenTime → Type 0
IsDate b =
    ((years : ℕ) × (b.year ≡ pos years) × (120 ≤ years))
    × ((months : ℕ) × (b.month ≡ pos months) × (months ≤ 11))
    × (1 ≤ b.day)
    × (b.day ≤ 31)
    × (b.hour ≤ 23)
    × (b.minute ≤ 59)
    × (b.second ≤ 59)

module _ (f : Floats) where
  note_utc-IsDate :
      (now : ℕ) (r : Report f) (d : GpsData f)
      → (note_utc f now r d).utc_valid ≡ true
      → IsDate (broken_time (note_utc f now r d))
  unfolding note_utc fresh_utc
  note_utc-IsDate now r d h = (
    (r.year - 1900, ground (arith, h), ground (arith, h)),
    (r.month - 1, ground (arith, h), ground (arith, h)),
    ground (arith, h),
    ground (arith, h),
    ground (arith, h),
    ground (arith, h),
    ground (arith, h),
  )

  note_fix-utc :
      (now : ℕ) (r : Report f) (d : GpsData f)
      → ((note_fix f now r d).utc_valid ≡ d.utc_valid)
        × (broken_time (note_fix f now r d) ≡ broken_time d)
  unfolding note_fix
  note_fix-utc now r d = ground arith

  note_silence-reading : (now : ℕ) (s : GpsNeo6m f) → (note_silence f now s).reading ≡ s.reading
  unfolding note_silence
  note_silence-reading now s = ground arith

  -- Whatever the receiver sends: if a tick of the started sensor calls the satellites' time valid, then what the
  -- clock hands to mktime is a date from 2020 on with the month, day, hour, minute and second in their ranges,
  -- a leap second cut to 59.
  pub update-IsDate :
      (tiny : TinyGps f) (now millis : ℕ) (bytes : List ℕ) (s : GpsNeo6m f) (g : tiny.Parser)
      → s.started ≡ true
      → (update f tiny now millis bytes s g).0.reading.utc_valid ≡ true
      → IsDate (broken_time (update f tiny now millis bytes s g).0.reading)
  unfolding update
  update-IsDate tiny now millis bytes s g h k =
      let (s1, g1) = read_bytes f tiny now bytes s g in
      let r = tiny.report g1 millis in
      let d = note_utc f now r (note_quality f r s1.reading) in
      let noted = record s1 { reading = note_fix f now r d } in
      let result : (update f tiny now millis bytes s g).0.reading ≡ note_fix f now r d =
        ground (arith, h, note_silence-reading now noted) in
      let (valid, same) = note_fix-utc now r d in
      let dated =
        note_utc-IsDate now r (note_quality f r s1.reading)
          (sym valid ∙ ap (λ d. d.utc_valid) (sym result) ∙ k) in
      subst (λ x. IsDate (broken_time x)) (sym result) (subst IsDate (sym same) dated)
