-- ===== src/MicroSdLogger/Lines.antt =====
-- The lines of the log files.
use mathlib.Core.List.{append_assoc}
use multisensory_device.Base.{
  ℕ, ◌+◌, ◌≤◌, ◌<◌, ◌≡◌, ◌≢◌, sym, subst, ◌∙◌, ap, Bool, true, some, List, [], ◌∷◌, ◌++◌, arith,
  leb, length, length-append, take, take_all, Option-cases, inl, inr, ◌⊎◌, Bool-cases,
}
use multisensory_device.MicroSdLogger.{
  LogCard, MicroSdLogger, segment_path, refresh_capacity, open_segment, rotate_if_needed,
  write_line, append_json_line,
}

-- A card that keeps the bytes that it says it has taken, and nothing else in the file.
pub record KeepsLines (card : LogCard) : Type 0 where
  pub contents : card.Fs → List ℕ → List ℕ
  pub sized : (fs : card.Fs) (path : List ℕ) → card.size fs path ≡ length (contents fs path)
  pub appended :
      (fs : card.Fs) (path text : List ℕ)
      → contents (card.append fs path text).1 path
        ≡ contents fs path ++ take (card.append fs path text).0 text
  pub opened :
      (fs fs' : card.Fs) (opened path : List ℕ)
      → card.open_append fs opened ≡ some fs'
      → contents fs' path ≡ contents fs path

module _ (card : LogCard) (keeps : KeepsLines card) where
  open_segment-contents :
      (l : MicroSdLogger) (fs : card.Fs) (path : List ℕ)
      → keeps.contents (open_segment card l fs).2 path ≡ keeps.contents fs path
  unfolding open_segment
  open_segment-contents l fs path =
      let name = segment_path l.status.boot_session l.status.segment in
      elim (Option-cases (card.open_append fs name)) [
        | inl e ↦ ground (arith, e)
        | inr (fs1, e) ↦ ground (arith, e, keeps.opened fs fs1 name path e)
      ]

  abbrev next_segment : MicroSdLogger → MicroSdLogger
  next_segment l = record l { status = record l.status { segment = l.status.segment + 1 } }

  -- What the rotation leaves in every file.
  rotate-contents :
      (n : ℕ) (l : MicroSdLogger) (fs : card.Fs) (path : List ℕ)
      → keeps.contents (rotate_if_needed card n l fs).2 path ≡ keeps.contents fs path
  unfolding rotate_if_needed
  rotate-contents n l fs path =
      ground
        (arith, open_segment-contents l fs path, open_segment-contents (next_segment l) fs path)

  open_segment-path :
      (l : MicroSdLogger) (fs : card.Fs)
      → ((open_segment card l fs).1.path ≡ segment_path l.status.boot_session l.status.segment)
        × ((open_segment card l fs).1.status.segment ≡ l.status.segment)
  unfolding open_segment
  open_segment-path l fs =
      elim (Option-cases
        (card.open_append fs (segment_path l.status.boot_session l.status.segment))) [
          | inl e ↦ (ground (arith, e), ground (arith, e))
          | inr (fs1, e) ↦ (ground (arith, e), ground (arith, e))
        ]

  -- With an open file the rotation keeps it as long as it has room, and else goes on to the next segment.
  abbrev RotatesTo : ℕ → MicroSdLogger → card.Fs → MicroSdLogger → Type 0
  RotatesTo n l fs l1 =
      ((l1.path ≡ l.path)
        × (l1.status.segment ≡ l.status.segment)
        × (card.size fs l.path + n ≤ 1048576))
      ⊎ ((l1.path ≡ segment_path l.status.boot_session (l.status.segment + 1))
          × (l1.status.segment ≡ l.status.segment + 1)
          × (l.status.segment ≢ 65535)
          × (1048576 < card.size fs l.path + n))

  rotate-RotatesTo :
      (n : ℕ) (l : MicroSdLogger) (fs : card.Fs)
      → l.file_open ≡ true
      → (rotate_if_needed card n l fs).0 ≡ true
      → RotatesTo n l fs (rotate_if_needed card n l fs).1
  unfolding rotate_if_needed
  rotate-RotatesTo n l fs h k =
      let next = open_segment-path (next_segment l) fs in
      elim (Bool-cases (leb (card.size fs l.path + n) 1048576)) [
        | inl e ↦ inl (ground (arith, h, k, e), ground (arith, h, k, e), ground (arith, e))
        | inr e ↦ inr (
          ground (arith, h, k, e, next),
          ground (arith, h, k, e, next),
          ground (arith, h, k, e),
          ground (arith, e),
        )
      ]

  write_line-contents :
      (json : List ℕ) (now : ℕ) (l : MicroSdLogger) (fs : card.Fs)
      → (write_line card json now l fs).0 ≡ true
      → (keeps.contents (write_line card json now l fs).2 l.path
          ≡ keeps.contents fs l.path ++ (json ++ (10 ∷ [])))
        × ((write_line card json now l fs).1.path ≡ l.path)
        × ((write_line card json now l fs).1.status.segment ≡ l.status.segment)
  unfolding write_line refresh_capacity
  write_line-contents json now l fs h =
      let (written, fs1) = card.append fs l.path json in
      let whole : written ≡ length json = ground (arith, h) in
      let first = keeps.appended fs l.path json in
      let second = keeps.appended fs1 l.path (10 ∷ []) in
      let taken = take_all written json (omega (arith, whole)) in
      let joined = append_assoc (keeps.contents fs l.path) json (10 ∷ []) in
      (ground (arith, h, whole, first, second, taken, joined), ground (arith, h), ground (arith, h))

  -- What a stored line has been through.
  stored :
      (json : List ℕ) (now : ℕ) (l : MicroSdLogger) (fs : card.Fs)
      → (append_json_line card json now l fs).0 ≡ true
      → let (rotated, l1, fs1) = rotate_if_needed card (length json + 1) l fs in
        (l.file_open ≡ true)
        × (rotated ≡ true)
        × (append_json_line card json now l fs ≡ write_line card json now l1 fs1)
  unfolding append_json_line
  stored json now l fs h = (ground (arith, h), ground (arith, h), ground (arith, h))

  abbrev pub IsStored : List ℕ → MicroSdLogger → card.Fs → Bool × MicroSdLogger × card.Fs → Type 0
  IsStored json l fs (ok, l', fs') =
      (keeps.contents fs' l'.path ≡ keeps.contents fs l'.path ++ (json ++ (10 ∷ [])))
      × (card.size fs' l'.path ≤ 1048576)
      × (((l'.path ≡ l.path) × (l'.status.segment ≡ l.status.segment))
          ⊎ ((l'.path ≡ segment_path l.status.boot_session (l.status.segment + 1))
              × (l'.status.segment ≡ l.status.segment + 1)
              × (l'.status.segment ≤ 65535)
              × (1048576 < card.size fs l.path + (length json + 1))))

  -- For a line of less than one mebibyte and a next segment whose file has nothing in it, and with a segment
  -- number of 16 bits: a line that the log takes stands, with its line feed, behind all that its file had
  -- before the call, and nothing of the file is lost; the file is the open one, or, where the line would take
  -- this over one mebibyte, the next segment, whose number does not wrap around; and the file is then at
  -- most one mebibyte long.
  pub append_json_line_lem :
      (json : List ℕ) (now : ℕ) (l : MicroSdLogger) (fs : card.Fs)
      → (append_json_line card json now l fs).0 ≡ true
      → l.status.segment ≤ 65535
      → length json < 1048576
      → keeps.contents fs (segment_path l.status.boot_session (l.status.segment + 1)) ≡ []
      → IsStored json l fs (append_json_line card json now l fs)
  append_json_line_lem json now l fs h small fits new =
      let (opened, rotated, same) = stored json now l fs h in
      let (ok, l1, fs1) = rotate_if_needed card (length json + 1) l fs in
      let (line, path, segment) = write_line-contents json now l1 fs1 (ground (arith, same, h)) in
      let kept = rotate-contents (length json + 1) l fs l1.path in
      let to = rotate-RotatesTo (length json + 1) l fs opened rotated in
      let (_, l2, fs2) = write_line card json now l1 fs1 in
      let sized = keeps.sized fs l.path in
      let sized2 = keeps.sized fs2 l1.path in
      let whole = length-append (keeps.contents fs l1.path) (json ++ (10 ∷ [])) in
      let added = length-append json (10 ∷ []) in
      let stands : keeps.contents fs2 l1.path ≡ keeps.contents fs l1.path ++ (json ++ (10 ∷ [])) =
        line ∙ ap (λ s. s ++ (json ++ (10 ∷ []))) kept in
      let total : card.size fs2 l1.path ≡ length (keeps.contents fs l1.path) + (length json + 1) =
        ground (arith, sized2, stands, whole, added) in
      subst (IsStored json l fs) (sym same) (elim to [
        | inl (there, number, room) ↦ (
          ground (stands, path, arith),
          ground (arith, path, there, total, sized, room),
          inl (ground (arith, path, there), ground (arith, segment, number)),
        )
        | inr (there, number, more, over) ↦ (
          ground (stands, path, arith),
          ground (arith, path, there, total, new, fits),
          inr (
            ground (arith, path, there),
            ground (arith, segment, number),
            ground (arith, segment, number, small, more),
            over,
          ),
        )
      ])
