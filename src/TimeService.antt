-- ===== src/TimeService.antt =====
-- system/TimeService.h and .cpp: the wall clock, from NTP or else from the satellites.
pub mod Sources
mod Tests
use multisensory_device.Base.{
  ℕ, ◌-◌, ◌≡◌, Bool, true, false, not, ◌&&◌, ◌||◌, Option, none, some, List, ltb, leb, ◌==◌,
  if◌then◌else◌, length, elapsed,
}
use multisensory_device.Base.Text.{codes}
use multisensory_device.Base.Int.{ℤ, pos, negsuc}
use multisensory_device.Floats.{Floats}
use multisensory_device.TelemetryData.{GpsData}
use multisensory_device.Config.{ntp_sync_retry_interval_ms}

-- struct tm, the year since 1900 and the month from 0
pub record BrokenTime : Type 0 where
  pub year : ℤ
  pub month : ℤ
  pub day : ℕ
  pub hour : ℕ
  pub minute : ℕ
  pub second : ℕ

-- What is used of the C library and of the SNTP client, which are not part of the repository. A call of
-- TimeService takes no time.
pub record SystemClock : Type 1 where
  pub Os : Type 0
  -- setenv("TZ", "UTC0") and tzset()
  pub use_utc : Os → Os
  -- time(nullptr)
  pub seconds : Os → ℤ
  -- settimeofday, with true for the result 0
  pub set_seconds : Os → ℤ → Bool × Os
  pub make_time : BrokenTime → ℤ
  -- gmtime_r followed by strftime; none where gmtime_r fails, and [] where strftime returns 0
  pub spell_utc : ℤ → ℕ → Option (List ℕ)
  -- configTime, and sntp_get_sync_status() == SNTP_SYNC_STATUS_COMPLETED, which may reset the status
  pub request_ntp : Os → Os
  pub sync_completed : Os → Bool × Os

-- The clock that reads what it was set to, and that nothing else changes.
pub record KeepsTime (c : SystemClock) : Type 0 where
  pub asked : (os : c.Os) → c.seconds (c.request_ntp os) ≡ c.seconds os
  pub status_read : (os : c.Os) → c.seconds (c.sync_completed os).1 ≡ c.seconds os
  pub seconds_set :
      (os : c.Os) (t : ℤ)
      → c.seconds (c.set_seconds os t).1 ≡ (if (c.set_seconds os t).0 then t else c.seconds os)

pub data TimeSource : Type 0 where
  no_source gps ntp : TimeSource

pub record TimeService : Type 0 where
  pub ntp_started : Bool
  pub last_ntp_start_ms : ℕ
  pub source : TimeSource

-- kMinimumValidEpoch <= t && t < kMaximumValidEpoch
unfoldable pub is_valid_epoch : ℤ → Bool
is_valid_epoch (pos t) = leb 1704067200 t && ltb t 4102444800
is_valid_epoch (negsuc t) = false

-- `a - b` as an int
abbrev minus : ℕ → ℕ → ℤ
minus a b = if ltb a b then negsuc (b - a - 1) else pos (a - b)

abbrev pub broken_time : {f : Floats} → GpsData f → BrokenTime
broken_time g = record {
  year = minus g.utc_year 1900;
  month = minus g.utc_month 1;
  day = g.utc_day;
  hour = g.utc_hour;
  minute = g.utc_minute;
  second = g.utc_second;
}

module _ (c : SystemClock) where
  abbrev pub system_clock_valid : c.Os → Bool
  system_clock_valid os = is_valid_epoch (c.seconds os)

  unfoldable pub begin : TimeService → c.Os → TimeService × c.Os
  begin s os =
      let os1 = c.use_utc os in
      (record s { source = if system_clock_valid os1 then ntp else no_source }, os1)

  unfoldable pub start_ntp : ℕ → TimeService → c.Os → TimeService × c.Os
  start_ntp now s os = (record s { ntp_started = true; last_ntp_start_ms = now }, c.request_ntp os)

  unfoldable pub synchronize_from_gps : {f : Floats} → GpsData f → c.Os → Bool × c.Os
  synchronize_from_gps g os =
      let epoch = c.make_time (broken_time g) in
      if not (is_valid_epoch epoch) then (false, os) else c.set_seconds os epoch

  -- The three parts of `update`.
  unfoldable pub ask_ntp : ℕ → Bool → TimeService → c.Os → TimeService × c.Os
  ask_ntp now wifi_connected s os =
      if wifi_connected
        && not (system_clock_valid os)
        && (not s.ntp_started || leb ntp_sync_retry_interval_ms (elapsed now s.last_ntp_start_ms))
      then start_ntp now s os
      else (s, os)

  unfoldable pub note_ntp : TimeService → c.Os → TimeService × c.Os
  note_ntp s os =
      let (completed, os1) = c.sync_completed os in
      if not s.ntp_started
      then (s, os)
      else if completed && system_clock_valid os1
      then (record s { source = ntp }, os1)
      else (s, os1)

  unfoldable pub fall_back : {f : Floats} → GpsData f → TimeService → c.Os → TimeService × c.Os
  fall_back g s os =
      let (set, os1) = synchronize_from_gps g os in
      if system_clock_valid os || not g.utc_valid
      then (s, os)
      else if set
      then (record s { source = gps }, os1)
      else (s, os1)

  unfoldable pub update :
      {f : Floats} → ℕ → Bool → GpsData f → TimeService → c.Os → TimeService × c.Os
  update now wifi_connected g s os =
      let (s1, os1) = ask_ntp now wifi_connected s os in
      let (s2, os2) = note_ntp s1 os1 in fall_back g s2 os2

  unfoldable pub source_of : TimeService → c.Os → TimeSource
  source_of s os = if system_clock_valid os then s.source else no_source

  unfoldable pub epoch_seconds : c.Os → ℤ
  epoch_seconds os = if not (system_clock_valid os) then pos 0 else c.seconds os

  -- `none` is the result `false`. The output pointer is never null.
  unfoldable pub format_iso8601 : ℕ → c.Os → Option (List ℕ)
  format_iso8601 output_size os =
      if ltb output_size 21 || not (system_clock_valid os)
      then none
      else elim (c.spell_utc (c.seconds os) output_size) [
        | none ↦ none
        | some text ↦ if length text == 0 then none else some text
      ]

unfoldable pub source_name : TimeSource → List ℕ
source_name gps = codes "gps"
source_name ntp = codes "ntp"
source_name no_source = codes "none"
