-- ===== src/Storage/OfflineRecord.antt =====
-- The records of the spool: storage/OfflineTelemetryQueue.cpp, its anonymous namespace. A record is a
-- file `/spool/q_<10 digits>.msg` that holds a packed header of 40 bytes and the payload.
pub mod Layout
pub mod Path
mod Tests
use mathlib.Core.List.{foldl}
use multisensory_device.Base.{
  ℕ, zero, suc, ◌+◌, ◌-◌, ◌*◌, ◌/◌, ◌%◌, Bool, true, false, not, ◌&&◌, ◌||◌, Option, none, some,
  List, [], ◌∷◌, ◌++◌, bit_xor, ltb, leb, ◌==◌, if◌then◌else◌, take, drop, u32_mod,
}
use multisensory_device.Base.Decimal.{print_padded, value}
use multisensory_device.Base.Text.{codes, starts_with}
use multisensory_device.OfflineQueuePolicy.{record_id_mask, uint32_max}

abbrev pub record_magic : ℕ
record_magic = 0x56535131

abbrev pub record_version : ℕ
record_version = 1

abbrev pub flag_deferred : ℕ
flag_deferred = 1

abbrev pub flag_last_publish_replayed : ℕ
flag_last_publish_replayed = 2

pub record QueueRecordHeader : Type 0 where
  pub magic : ℕ
  pub version : ℕ
  pub flags : ℕ
  pub record_id : ℕ
  pub boot_id : ℕ
  pub attempts : ℕ
  pub enqueued_uptime_ms : ℕ
  pub enqueued_epoch_seconds : ℕ
  pub payload_length : ℕ
  pub checksum : ℕ

abbrev pub header_size : ℕ
header_size = 40

-- The bytes of an unsigned integer in memory, lowest first.
abbrev pub to_bytes : ℕ → ℕ → List ℕ
to_bytes zero n = []
to_bytes (suc k) n = n % 256 ∷ to_bytes k (n / 256)

abbrev pub of_bytes : List ℕ → ℕ
of_bytes [] = 0
of_bytes (b ∷ bs) = b + 256 * of_bytes bs

-- `reinterpret_cast<const uint8_t*>(&header)` of the packed struct.
unfoldable pub encode : QueueRecordHeader → List ℕ
encode h =
    to_bytes 4 h.magic
    ++ (to_bytes 2 h.version
        ++ (to_bytes 2 h.flags
            ++ (to_bytes 4 h.record_id
                ++ (to_bytes 4 h.boot_id
                    ++ (to_bytes 4 h.attempts
                        ++ (to_bytes 4 h.enqueued_uptime_ms
                            ++ (to_bytes 8 h.enqueued_epoch_seconds
                                ++ (to_bytes 4 h.payload_length ++ to_bytes 4 h.checksum))))))))

abbrev at : ℕ → ℕ → List ℕ → ℕ
at offset width bytes = of_bytes (take width (drop offset bytes))

-- The header that the first 40 bytes of a file are read into.
unfoldable pub decode : List ℕ → QueueRecordHeader
decode bytes = record {
  magic = at 0 4 bytes;
  version = at 4 2 bytes;
  flags = at 6 2 bytes;
  record_id = at 8 4 bytes;
  boot_id = at 12 4 bytes;
  attempts = at 16 4 bytes;
  enqueued_uptime_ms = at 20 4 bytes;
  enqueued_epoch_seconds = at 24 8 bytes;
  payload_length = at 32 4 bytes;
  checksum = at 36 4 bytes;
}

-- FNV-1a over 32 bits.
abbrev pub mix : ℕ → ℕ → ℕ
mix sum byte = bit_xor sum byte * 16777619 % u32_mod

unfoldable pub checksum_of : List ℕ → ℕ
checksum_of = foldl mix 2166136261

abbrev pub queue_directory : List ℕ
queue_directory = codes "/spool"

abbrev pub temporary_path : List ℕ
temporary_path = codes "/spool/tmp.msg"

-- snprintf("%s/q_%010lu.msg"); an id below 10 ^ 10 takes the ten places.
unfoldable pub record_path : ℕ → List ℕ
record_path record_id =
    queue_directory ++ (codes "/q_" ++ (print_padded 10 record_id ++ codes ".msg"))

-- `name == nullptr ? path : name + 1` for the last slash.
after_slash : List ℕ → Option (List ℕ)
after_slash [] = none
after_slash (c ∷ s) = elim (after_slash s) [
  | some name ↦ some name
  | none ↦ if c == b'/' then some s else none
]

unfoldable pub file_name : List ℕ → List ℕ
unfolding after_slash
file_name path = elim (after_slash path) [ none ↦ path | some name ↦ name ]

abbrev is_space : ℕ → Bool
is_space c = c == 32 || (leb 9 c && leb c 13)

abbrev is_digit : ℕ → Bool
is_digit c = leb b'0' c && leb c b'9'

skip_space : List ℕ → List ℕ
skip_space [] = []
skip_space (c ∷ s) = if is_space c then skip_space s else c ∷ s

-- The digits in front, and the rest.
digits : List ℕ → List ℕ × List ℕ
digits [] = ([], [])
digits (c ∷ s) = let (ds, rest) = digits s in if is_digit c then (c ∷ ds, rest) else ([], c ∷ s)

-- strtoul: too large a number is ULONG_MAX, and a minus sign negates within 32 bits.
abbrev limited : Bool → ℕ → ℕ
limited negative n =
    if ltb uint32_max n then uint32_max else if negative then (u32_mod - n) % u32_mod else n

abbrev number : Bool → List ℕ × List ℕ → Option (ℕ × List ℕ)
number negative ([], rest) = none
number negative (d ∷ ds, rest) = some (limited negative (value (d ∷ ds)), rest)

signed : List ℕ → Option (ℕ × List ℕ)
unfolding digits
signed [] = none
signed (c ∷ s) =
    if c == b'-'
    then number true (digits s)
    else if c == b'+'
    then number false (digits s)
    else number false (digits (c ∷ s))

-- The conversion `%lu` of sscanf.
scan_ulong : List ℕ → Option (ℕ × List ℕ)
unfolding signed skip_space
scan_ulong s = signed (skip_space s)

-- Whether `.msg%c` behind the number makes a second conversion. If the literal fails to match,
-- sscanf stops there, with the number converted.
unfoldable pub trailing : List ℕ → Bool
trailing rest = starts_with (codes ".msg") rest && not (is_nil (drop 4 rest))
  where
    is_nil : List ℕ → Bool
    is_nil [] = true
    is_nil (c ∷ s) = false

accept : Option (ℕ × List ℕ) → Option ℕ
unfolding trailing
accept none = none
accept (some (parsed, rest)) =
    if trailing rest || parsed == 0 || ltb record_id_mask parsed then none else some parsed

-- `parseRecordId`, with `none` for `false`.
unfoldable pub parse_record_id : List ℕ → Option ℕ
unfolding scan_ulong accept file_name starts_with
parse_record_id path =
    let name = file_name path in
    if starts_with (codes "q_") name then accept (scan_ulong (drop 2 name)) else none
