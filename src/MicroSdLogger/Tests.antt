-- ===== src/MicroSdLogger/Tests.antt =====
-- The theorem on the log over a card that keeps the bytes of its files, for a first line.
use multisensory_device.Base.{
  ℕ, ◌≡◌, refl, true, false, some, List, [], ◌++◌, arith, length, take_all, if◌then◌else◌,
  same_text, same_text_iff,
}
use multisensory_device.Base.Text.{codes}
use multisensory_device.MicroSdLogger.{
  LogCard, MicroSdLogger, segment_path, append_json_line, rotate_if_needed, write_line,
  refresh_capacity,
}
use multisensory_device.MicroSdLogger.Lines.{KeepsLines, IsStored, append_json_line_lem}

-- The state of the card is the bytes at each path.
abbrev memory : LogCard
memory = record {
  Fs = List ℕ → List ℕ;
  mount = λ fs. (true, fs);
  unmount = λ fs. fs;
  exists = λ fs path. true;
  mkdir = λ fs path. (true, fs);
  open_append = λ fs path. some fs;
  size = λ fs path. length (fs path);
  append = λ fs path text. (length text, λ p. if same_text p path then fs p ++ text else fs p);
  total_bytes = λ fs. 1000;
  used_bytes = λ fs. 10;
}

keeps : KeepsLines memory
keeps = record {
  contents = λ fs path. fs path;
  sized = λ fs path. refl;
  appended =
      λ fs path text. ground (arith, (same_text_iff path path).1 refl, take_all (length text) text);
  opened = λ fs fs' opened path h. ground (arith, h);
}

abbrev logger : MicroSdLogger
logger = record {
  file_open = true;
  status = record {
    initialized = true;
    mounted = true;
    last_write_ok = false;
    total_bytes = 1000;
    used_bytes = 10;
    free_bytes = 990;
    last_write_ms = 0;
    boot_session = 7;
    segment = 0;
  };
  path = segment_path 7 0;
  last_begin_attempt_ms = 0;
  session_initialized = true;
}

abbrev blank : List ℕ → List ℕ
blank path = []

append_run : (append_json_line memory (codes "{}") 1000 logger blank).0 ≡ true
unfolding append_json_line rotate_if_needed write_line refresh_capacity
append_run = refl

append_json_line_lem_example :
    IsStored memory keeps
      (codes "{}")
      logger
      blank
      (append_json_line memory (codes "{}") 1000 logger blank)
unfolding keeps
append_json_line_lem_example =
    append_json_line_lem memory keeps (codes "{}") 1000 logger blank append_run (omega arith)
      (omega arith) refl
