-- ===== src/Storage/SdCard/Memory.antt =====
-- A card kept in memory, which meets the assumptions on the SD library: the files by their paths.
use multisensory_device.Base.{
  ℕ, ◌+◌, ◌≡◌, refl, Bool, true, false, Option, none, some, List, [], ◌∷◌, ◌++◌, arith, same_text,
  same_text_iff, if◌then◌else◌, length, length-append, take, drop, take_all, inl, inr, Option-cases,
}
use multisensory_device.Storage.SdCard.{SdCard, DirEntry, OpenFile, IsReliable}

abbrev pub Files : Type 0
Files = List (List ℕ × List ℕ)

unfoldable pub find : List ℕ → Files → Option (List ℕ)
unfolding same_text
find path [] = none
find path ((name, text) ∷ files) = if same_text name path then some text else find path files

unfoldable pub erase : List ℕ → Files → Files
unfolding same_text
erase path [] = []
erase path ((name, text) ∷ files) =
    let rest = erase path files in if same_text name path then rest else (name, text) ∷ rest

abbrev pub contents : List ℕ → Files → List ℕ
contents path files = elim (find path files) [ none ↦ [] | some text ↦ text ]

abbrev file : List ℕ → OpenFile
file text = record { size = length text; bytes = text }

abbrev entry : List ℕ × List ℕ → DirEntry
entry (name, text) = record { name = name; size = length text; is_directory = false }

unfoldable pub list_files : Files → List DirEntry
list_files [] = []
list_files (f ∷ files) = entry f ∷ list_files files

abbrev pub rename_file : Files → List ℕ → List ℕ → Bool × Files
rename_file files from to = elim (find from files) [
  | none ↦ (false, files)
  | some text ↦ (true, (to, text) ∷ erase to (erase from files))
]

abbrev pub open_file : Files → List ℕ → Option OpenFile
open_file files path = elim (find path files) [ none ↦ none | some text ↦ some (file text) ]

abbrev pub memory_card : SdCard
memory_card = record {
  Fs = Files;
  card_missing = λ files. false;
  exists = λ files path. true;
  mkdir = λ files path. (true, files);
  remove = λ files path. (true, erase path files);
  rename = rename_file;
  open_read = open_file;
  open_write = λ files path. some ((path, []) ∷ erase path files);
  write = λ files path text. (length text, (path, contents path files ++ text) ∷ erase path files);
  open_update = open_file;
  seek_start = λ files path. true;
  overwrite = λ files path text.
      (length text, (path, text ++ drop (length text) (contents path files)) ∷ erase path files);
  open_dir = λ files path. some (list_files files);
}

find_front : (path text : List ℕ) (files : Files) → find path ((path, text) ∷ files) ≡ some text
unfolding find
find_front path text files = rw ((same_text_iff path path).1 refl)

written_lem :
    (fs : Files) (path text old : List ℕ) (f : OpenFile)
    → find path fs ≡ some old
    → open_file fs path ≡ some f
    → open_file ((path, contents path fs ++ text) ∷ erase path fs) path
      ≡ some (record { size = f.size + length text; bytes = f.bytes ++ take (length text) text })
written_lem fs path text old f hit e =
    let new : contents path fs ≡ old = ground arith in
    let same : f ≡ file old = ground arith in
    let whole : take (length text) text ≡ text = take_all (length text) text (omega arith) in
    ground (
      arith,
      new,
      same,
      whole,
      length-append old text,
      find_front path (contents path fs ++ text) (erase path fs),
    )

renamed_lem :
    (fs fs' : Files) (from to : List ℕ)
    → rename_file fs from to ≡ (true, fs')
    → open_file fs' to ≡ open_file fs from
renamed_lem fs fs' from to e = elim (Option-cases (find from fs)) [
  | inl miss ↦ absurd (ground arith)
  | inr (text, hit) ↦ ground (arith, hit, find_front to text (erase to (erase from fs)))
]

written_any :
    (fs fs' : Files) (path text : List ℕ) (count : ℕ) (f : OpenFile)
    → open_file fs path ≡ some f
    → memory_card.write fs path text ≡ (count, fs')
    → open_file fs' path
      ≡ some (record { size = f.size + count; bytes = f.bytes ++ take count text })
written_any fs fs' path text count f e w = elim (Option-cases (find path fs)) [
  | inl miss ↦ absurd (ground arith)
  | inr (old, hit) ↦ ground (arith, written_lem fs path text old f hit e)
]

pub memory_card-IsReliable : IsReliable memory_card
memory_card-IsReliable = record {
  opened_empty = λ fs fs' path e. ground (arith, find_front path [] (erase path fs));
  written = written_any;
  renamed = renamed_lem;
}
