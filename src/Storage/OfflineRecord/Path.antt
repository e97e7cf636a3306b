-- ===== src/Storage/OfflineRecord/Path.antt =====
-- A record's path is read back as its id; what else the parser takes for a record.
use multisensory_device.Base.{
  ℕ, ◌≤◌, ◌<◌, ◌≡◌, ◌≢◌, refl, ◌∙◌, ap, false, none, some, List, [], ◌∷◌, ◌++◌, arith, length,
  length-append, All,
}
use multisensory_device.Base.Decimal.{
  print_padded, value, value-print_padded, print_padded-IsDigit, length-print_padded, IsDigit,
}
use multisensory_device.Base.Text.{codes, starts_with}
use multisensory_device.OfflineQueuePolicy.{record_id_mask}
use multisensory_device.Storage.OfflineRecord.{
  record_path, parse_record_id, file_name, after_slash, digits, scan_ulong, accept, trailing,
  queue_directory, limited,
}

after_slash-none : (s : List ℕ) → All (λ c. c ≢ b'/') s → after_slash s ≡ none
unfolding after_slash
after_slash-none [] h = refl
after_slash-none (c ∷ s) (hc, hs) = rw (after_slash-none s hs, after_slash) (ground arith)

after_slash_prefix :
    (dir s : List ℕ) → All (λ c. c ≢ b'/') s → after_slash (dir ++ (b'/' ∷ s)) ≡ some s
unfolding after_slash
after_slash_prefix [] s h = rw (after_slash-none s h, after_slash)
after_slash_prefix (c ∷ dir) s h = rw (after_slash_prefix dir s h, after_slash)

-- What cannot go on a run of digits.
abbrev pub StopsDigits : List ℕ → Type 0
StopsDigits [] = Unit {0}
StopsDigits (c ∷ s) = ¬ IsDigit c

digits-append :
    (ds rest : List ℕ) → All IsDigit ds → StopsDigits rest → digits (ds ++ rest) ≡ (ds, rest)
unfolding digits
digits-append [] [] h stop = refl
digits-append [] (c ∷ s) h stop = ground arith
digits-append (d ∷ ds) rest h stop = ground (arith, digits-append ds rest h.1 stop)

scan_digits :
    (d : ℕ) (ds rest : List ℕ)
    → All IsDigit (d ∷ ds)
    → StopsDigits rest
    → scan_ulong (d ∷ (ds ++ rest)) ≡ some (limited false (value (d ∷ ds)), rest)
unfolding scan_ulong
scan_digits d ds rest h stop = ground (arith, digits-append ds rest h.1 stop)

scan_number :
    (ds rest : List ℕ)
    → 0 < length ds
    → All IsDigit ds
    → StopsDigits rest
    → scan_ulong (ds ++ rest) ≡ some (limited false (value ds), rest)
scan_number [] rest long h stop = absurd (omega arith)
scan_number (d ∷ ds) rest long h stop = scan_digits d ds rest h stop

no_slash :
    (ds rest : List ℕ)
    → All IsDigit ds
    → All (λ c. c ≢ b'/') rest
    → All (λ c. c ≢ b'/') (ds ++ rest)
no_slash [] rest h k = k
no_slash (d ∷ ds) rest h k = (λ e. omega arith, no_slash ds rest h.1 k)

-- What may follow the number in a file name that is taken for a record: nothing that goes on the
-- number, no `.msg` with more behind it, and no slash.
pub record IsSuffix (suffix : List ℕ) : Type 0 where
  pub stops : StopsDigits suffix
  pub ends : trailing suffix ≡ false
  pub plain : All (λ c. c ≢ b'/') suffix

module _ (dir suffix : List ℕ) (id : ℕ) (ok : IsSuffix suffix) (pos : 0 < id)
    (small : id ≤ record_id_mask) where
  abbrev ds : List ℕ
  ds = print_padded 10 id

  scanned : scan_ulong (ds ++ suffix) ≡ some (id, suffix)
  scanned =
      scan_number ds suffix (omega (arith, length-print_padded 10 id)) (print_padded-IsDigit 10 id)
        ok.stops
      ∙ ap (λ n. some (n, suffix)) (ground (arith, value-print_padded 10 id (omega arith)))

  accepted : accept (scan_ulong (ds ++ suffix)) ≡ some id
  unfolding accept
  accepted = rw (scanned, accept) (ground (arith, ok.ends))

  named : file_name (dir ++ (b'/' ∷ (codes "q_" ++ (ds ++ suffix)))) ≡ codes "q_" ++ (ds ++ suffix)
  unfolding file_name
  named =
      let plain : All (λ c. c ≢ b'/') (codes "q_" ++ (ds ++ suffix)) = (
        λ e. omega arith,
        (λ e. omega arith, no_slash ds suffix (print_padded-IsDigit 10 id) ok.plain),
      ) in
      rw (after_slash_prefix dir (codes "q_" ++ (ds ++ suffix)) plain, file_name)

  pub parse_name : parse_record_id (dir ++ (codes "/q_" ++ (ds ++ suffix))) ≡ some id
  unfolding parse_record_id starts_with
  parse_name = rw (named, parse_record_id) accepted

msg_suffix : IsSuffix (codes ".msg")
unfolding trailing starts_with
msg_suffix = record {
  stops = λ h. omega arith;
  ends = refl;
  plain = (λ e. omega arith, (λ e. omega arith, (λ e. omega arith, (λ e. omega arith, tt))));
}

-- The path of every valid record id fits the 48-byte buffers of its callers and is read back as that id.
pub record_path_round_trip :
    (id : ℕ)
    → 0 < id
    → id ≤ record_id_mask
    → (parse_record_id (record_path id) ≡ some id) × (length (record_path id) < 48)
unfolding record_path
record_path_round_trip id pos small = (
  parse_name queue_directory (codes ".msg") id msg_suffix pos small,
  omega (arith, length-append (print_padded 10 id) (codes ".msg"), length-print_padded 10 id),
)

-- The parser does not insist on `.msg`: a file whose name goes on with any other text, such as
-- `.bak`, is taken for the record of that number, for the code counts the conversions only.
pub foreign_suffix_accepted :
    (id : ℕ) (suffix : List ℕ)
    → 0 < id
    → id ≤ record_id_mask
    → StopsDigits suffix
    → starts_with (codes ".msg") suffix ≡ false
    → All (λ c. c ≢ b'/') suffix
    → parse_record_id (queue_directory ++ (codes "/q_" ++ (print_padded 10 id ++ suffix))) ≡ some id
unfolding trailing
foreign_suffix_accepted id suffix pos small stops foreign plain =
    parse_name queue_directory suffix id
      (record { stops = stops; ends = rw foreign; plain = plain }) pos small

pub parse_record_id_pos : (name : List ℕ) (id : ℕ) → parse_record_id name ≡ some id → 0 < id
unfolding parse_record_id accept
parse_record_id_pos name id h = ground arith
