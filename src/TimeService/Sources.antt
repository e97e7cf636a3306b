-- ===== src/TimeService/Sources.antt =====
-- Which clock is believed.
use multisensory_device.Base.{ℕ, ◌≡◌, Bool, not, ◌&&◌, arith, if◌then◌else◌}
use multisensory_device.Floats.{Floats}
use multisensory_device.TelemetryData.{GpsData}
use multisensory_device.TimeService.{
  SystemClock, KeepsTime, TimeService, gps, ntp, no_source, is_valid_epoch, broken_time, start_ntp,
  synchronize_from_gps, ask_ntp, note_ntp, fall_back, update, source_of,
}

module _ (c : SystemClock) (k : KeepsTime c) (f : Floats) where
  ask_ntp-seconds :
      (now : ℕ) (wifi_connected : Bool) (s : TimeService) (os : c.Os)
      → c.seconds (ask_ntp c now wifi_connected s os).1 ≡ c.seconds os
  unfolding ask_ntp start_ntp
  ask_ntp-seconds now wifi_connected s os = ground (arith, k.asked os)

  note_ntp-seconds : (s : TimeService) (os : c.Os) → c.seconds (note_ntp c s os).1 ≡ c.seconds os
  unfolding note_ntp
  note_ntp-seconds s os = ground (arith, k.status_read os)

  fall_back_lem :
      (g : GpsData f) (s : TimeService) (os : c.Os)
      → let epoch = c.make_time (broken_time g) in
        let (s', os') = fall_back c g s os in
        let falls =
          not (is_valid_epoch (c.seconds os))
          && g.utc_valid
          && is_valid_epoch epoch
          && (c.set_seconds os epoch).0 in
        (c.seconds os' ≡ (if falls then epoch else c.seconds os))
        × (source_of c s' os' ≡ (if falls then gps else source_of c s os))
  unfolding fall_back source_of synchronize_from_gps
  fall_back_lem g s os = ground (arith, k.seconds_set os (c.make_time (broken_time g)))

  noted_source :
      (now : ℕ) (wifi_connected : Bool) (s : TimeService) (os : c.Os)
      → let (s1, os1) = ask_ntp c now wifi_connected s os in
        let (s2, os2) = note_ntp c s1 os1 in
        source_of c s2 os2 ≡ (
          if not (is_valid_epoch (c.seconds os))
          then no_source
          else if s.ntp_started && (c.sync_completed os).0
          then ntp
          else s.source)
  unfolding ask_ntp note_ntp start_ntp source_of
  noted_source now wifi_connected s os =
      ground (arith, k.asked os, k.status_read os, k.status_read (c.request_ntp os))

  -- One tick of the clock, all of its branches: the time changes only if it was not valid, the satellites give
  -- a valid one and the system takes it, and then the reported source is the satellites. In every other case
  -- the time stays, and the reported source is none for a time that is not valid and the recorded one, NTP
  -- after a completed synchronization, for a valid time.
  pub update_lem :
      (now : ℕ) (wifi_connected : Bool) (g : GpsData f) (s : TimeService) (os : c.Os)
      → let (s1, os1) = ask_ntp c now wifi_connected s os in
        let (s2, os2) = note_ntp c s1 os1 in
        let epoch = c.make_time (broken_time g) in
        let (s', os') = update c now wifi_connected g s os in
        let falls =
          not (is_valid_epoch (c.seconds os))
          && g.utc_valid
          && is_valid_epoch epoch
          && (c.set_seconds os2 epoch).0 in
        (c.seconds os' ≡ (if falls then epoch else c.seconds os))
        × (source_of c s' os' ≡ (
            if falls
            then gps
            else if not (is_valid_epoch (c.seconds os))
            then no_source
            else if s.ntp_started && (c.sync_completed os).0
            then ntp
            else s.source))
  unfolding update source_of
  update_lem now wifi_connected g s os =
      let (s1, os1) = ask_ntp c now wifi_connected s os in
      let (s2, os2) = note_ntp c s1 os1 in
      let asked = ask_ntp-seconds now wifi_connected s os in
      let noted = note_ntp-seconds s1 os1 in
      let fallen = fall_back_lem g s2 os2 in
      ground (arith, asked, noted, fallen, noted_source now wifi_connected s os)
