-- ===== src/TimeService/Tests.antt =====
-- The theorem on the clock at a device without network that has just seen the satellites' time.
use multisensory_device.Base.{◌≡◌, refl, true, false, not, ◌&&◌, some, if◌then◌else◌}
use multisensory_device.Base.Text.{codes}
use multisensory_device.Base.Int.{ℤ, pos}
use multisensory_device.Floats.Fixed.{fixed_floats}
use multisensory_device.TelemetryData.Sample.{gps}
use multisensory_device.TimeService
use multisensory_device.TimeService.{
  SystemClock, KeepsTime, TimeService, no_source, ntp, is_valid_epoch, broken_time, ask_ntp,
  note_ntp, update, source_of,
}
use multisensory_device.TimeService.Sources.{update_lem}

-- The system's state is its time in seconds.
abbrev clock : SystemClock
clock = record {
  Os = ℤ;
  use_utc = λ os. os;
  seconds = λ os. os;
  set_seconds = λ os t. (true, t);
  make_time = λ b. pos 1779021015;
  spell_utc = λ t size. some (codes "2026-05-17T12:30:15Z");
  request_ntp = λ os. os;
  sync_completed = λ os. (false, os);
}

keeps : KeepsTime clock
keeps = record { asked = λ os. refl; status_read = λ os. refl; seconds_set = λ os t. refl }

abbrev unset : TimeService
unset = record { ntp_started = false; last_ntp_start_ms = 0; source = no_source }

update_lem_example :
    let (s1, os1) = ask_ntp clock 1000 false unset (pos 0) in
    let (s2, os2) = note_ntp clock s1 os1 in
    let epoch = clock.make_time (broken_time gps) in
    let (s', os') = update clock 1000 false gps unset (pos 0) in
    let falls =
      not (is_valid_epoch (clock.seconds (pos 0)))
      && gps.utc_valid
      && is_valid_epoch epoch
      && (clock.set_seconds os2 epoch).0 in
    (clock.seconds os' ≡ (if falls then epoch else clock.seconds (pos 0)))
    × (source_of clock s' os' ≡ (
        if falls
        then TimeService.gps
        else if not (is_valid_epoch (clock.seconds (pos 0)))
        then no_source
        else if unset.ntp_started && (clock.sync_completed (pos 0)).0
        then ntp
        else unset.source))
update_lem_example = update_lem clock keeps fixed_floats 1000 false gps unset (pos 0)
