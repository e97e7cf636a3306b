-- ===== src/MicroSdLogger.antt =====
-- storage/MicroSDLogger.h and .cpp: the log of the messages on the memory card, in files of limited size. The
-- lines for the serial log and the pins of the card are left out. A message is a C string with its length.
pub mod Lines
pub mod Paths
mod Tests
use multisensory_device.Base.{
  ℕ, ◌+◌, ◌-◌, Bool, true, false, not, ◌&&◌, ◌||◌, Option, none, some, List, [], ◌∷◌, ◌++◌, ltb,
  leb, ◌==◌, if◌then◌else◌, length, add32, elapsed,
}
use multisensory_device.Base.Decimal.{print_decimal, print_padded}
use multisensory_device.Base.Text.{codes}
use multisensory_device.DeviceIdentity.{Preferences, successor}
use multisensory_device.RuntimeStatus.{StorageStatus}
use multisensory_device.Config.{sd_retry_interval_ms, sd_log_rotate_bytes}

-- What is used of the SD library for a log file that is open for appending, which is not part of the
-- repository. A write at the end of the file says how many bytes it took.
pub record LogCard : Type 1 where
  pub Fs : Type 0
  -- SD.begin() && SD.cardType() != CARD_NONE, and SD.end()
  pub mount : Fs → Bool × Fs
  pub unmount : Fs → Fs
  pub exists : Fs → List ℕ → Bool
  pub mkdir : Fs → List ℕ → Bool × Fs
  -- SD.open(path, FILE_APPEND)
  pub open_append : Fs → List ℕ → Option Fs
  pub size : Fs → List ℕ → ℕ
  pub append : Fs → List ℕ → List ℕ → ℕ × Fs
  pub total_bytes : Fs → ℕ
  pub used_bytes : Fs → ℕ

-- `file_open` is the truth value of the file object, whose path is `path`.
pub record MicroSdLogger : Type 0 where
  pub file_open : Bool
  pub status : StorageStatus
  pub path : List ℕ
  pub last_begin_attempt_ms : ℕ
  pub session_initialized : Bool

abbrev pub log_directory : List ℕ
log_directory = codes "/telemetry"

abbrev preferences_namespace : List ℕ
preferences_namespace = codes "sd_log"

abbrev boot_counter_key : List ℕ
boot_counter_key = codes "boot"

-- "%06lu" and "%03u"
abbrev pub at_least_6 : ℕ → List ℕ
at_least_6 n = if ltb n 1000000 then print_padded 6 n else print_decimal 10 n

abbrev pub at_least_3 : ℕ → List ℕ
at_least_3 n = if ltb n 1000 then print_padded 3 n else print_decimal 10 n

-- The text fits the buffer of 64 bytes.
unfoldable pub segment_path : ℕ → ℕ → List ℕ
segment_path boot_session segment =
    log_directory
    ++ (codes "/boot_"
        ++ (at_least_6 boot_session ++ (b'_' ∷ (at_least_3 segment ++ codes ".jsonl"))))

module _ (p : Preferences) where
  unfoldable pub initialize_session : MicroSdLogger → p.Nvs → Bool × MicroSdLogger × p.Nvs
  initialize_session l nvs =
      let next = successor (p.get_uint nvs preferences_namespace boot_counter_key 0) in
      let (count, nvs1) = p.put_uint nvs preferences_namespace boot_counter_key next in
      if l.session_initialized
      then (true, l, nvs)
      else if not (p.open_namespace nvs preferences_namespace)
      then (false, l, nvs)
      else if count == 4
      then (
        true,
        record l {
          session_initialized = true;
          status = record l.status { boot_session = next; segment = 0 };
        },
        nvs1,
      )
      else (false, l, nvs1)

module _ (card : LogCard) where
  open card use {
    Fs, mount, unmount, exists, mkdir, open_append, size, append, total_bytes, used_bytes,
  }

  unfoldable pub mark_unavailable : ℕ → MicroSdLogger → Fs → MicroSdLogger × Fs
  mark_unavailable now l fs = (
    record l {
      file_open = false;
      last_begin_attempt_ms = now;
      status = record l.status { initialized = false; mounted = false; last_write_ok = false };
    },
    unmount fs,
  )

  abbrev pub failed : ℕ → MicroSdLogger → Fs → Bool × MicroSdLogger × Fs
  failed now l fs = let (l1, fs1) = mark_unavailable now l fs in (false, l1, fs1)

  unfoldable pub refresh_capacity : MicroSdLogger → Fs → MicroSdLogger
  refresh_capacity l fs = record l {
    status = record l.status {
      total_bytes = total_bytes fs;
      used_bytes = used_bytes fs;
      free_bytes =
          if leb (used_bytes fs) (total_bytes fs) then total_bytes fs - used_bytes fs else 0;
    };
  }

  unfoldable pub open_segment : MicroSdLogger → Fs → Bool × MicroSdLogger × Fs
  open_segment l fs =
      let path = segment_path l.status.boot_session l.status.segment in
      elim (open_append fs path) [
        | none ↦ (false, record l { path = path; file_open = false }, fs)
        | some fs1 ↦ (true, record l { path = path; file_open = true }, fs1)
      ]

  unfoldable pub rotate_if_needed : ℕ → MicroSdLogger → Fs → Bool × MicroSdLogger × Fs
  rotate_if_needed next_record_bytes l fs =
      if not l.file_open
      then open_segment l fs
      else if leb (size fs l.path + next_record_bytes) sd_log_rotate_bytes
      then (true, l, fs)
      else if l.status.segment == 65535
      then (false, l, fs)
      else open_segment (record l { status = record l.status { segment = l.status.segment + 1 } })
          fs

  abbrev pub is_ready : MicroSdLogger → Bool
  is_ready l = l.status.mounted && l.file_open

  -- What follows the rotation in `appendJsonLine`.
  unfoldable pub write_line : List ℕ → ℕ → MicroSdLogger → Fs → Bool × MicroSdLogger × Fs
  write_line json now l fs =
      let (written, fs1) = append fs l.path json in
      let (newline_written, fs2) = append fs1 l.path (10 ∷ []) in
      let ok = written == length json && newline_written == 1 in
      let noted = record l {
        status = record l.status { last_write_ok = ok; last_write_ms = now };
      } in
      if ok then (true, refresh_capacity noted fs2, fs2) else failed now noted fs2

  unfoldable pub append_json_line : List ℕ → ℕ → MicroSdLogger → Fs → Bool × MicroSdLogger × Fs
  append_json_line json now l fs =
      let (rotated, l1, fs1) = rotate_if_needed (length json + 1) l fs in
      if not (is_ready l) || length json == 0
      then (false, l, fs)
      else if rotated
      then write_line json now l1 fs1
      else failed now l1 fs1

  -- The part of `begin` after the session, and the whole. `now` is the clock at the call's start.
  unfoldable pub mount_log : ℕ → MicroSdLogger → Fs → Bool × MicroSdLogger × Fs
  mount_log now l fs =
      let (mounted, fs1) = mount fs in
      let (made, made_fs) = mkdir fs1 log_directory in
      let there = exists fs1 log_directory in
      let fs2 = if there then fs1 else made_fs in
      let l1 = record l {
        status = record l.status { initialized = true; mounted = true; last_write_ok = false };
      } in
      let (opened, l2, fs3) = open_segment l1 fs2 in
      if not mounted
      then failed now l fs1
      else if not there && not made
      then failed now l fs2
      else if opened
      then (true, refresh_capacity l2 fs3, fs3)
      else failed now l2 fs3

  module _ (p : Preferences) where
    unfoldable pub begin : ℕ → MicroSdLogger → Fs → p.Nvs → Bool × MicroSdLogger × Fs × p.Nvs
    begin now l fs nvs =
        let tried = record l { last_begin_attempt_ms = now } in
        let (ready, l1, nvs1) = initialize_session p tried nvs in
        let (ok, l2, fs2) = if ready then mount_log now l1 fs else failed now l1 fs in
        (ok, l2, fs2, nvs1)

    -- `millis` is the clock that `begin` reads.
    unfoldable pub update : ℕ → ℕ → MicroSdLogger → Fs → p.Nvs → MicroSdLogger × Fs × p.Nvs
    update now millis l fs nvs =
        let (ok, l1, fs1, nvs1) = begin millis l fs nvs in
        if not l.status.mounted && leb sd_retry_interval_ms (elapsed now l.last_begin_attempt_ms)
        then (l1, fs1, nvs1)
        else (l, fs, nvs)
