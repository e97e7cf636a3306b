-- ===== src/Storage/SdCard.antt =====
-- What the firmware uses of the Arduino SD library, which is not part of the repository: a parameter
-- of the model. `Fs` is the state of the card; an operation that can change it returns the new state.
pub mod Memory
use multisensory_device.Base.{ℕ, ◌+◌, ◌≡◌, Bool, true, Option, some, List, [], ◌++◌, take}

pub record DirEntry : Type 0 where
  pub name : List ℕ
  pub size : ℕ
  pub is_directory : Bool

-- A file open for reading: `size()`, and the bytes that successive reads deliver. There are fewer of
-- them than `size` where the card fails half-way.
pub record OpenFile : Type 0 where
  pub size : ℕ
  pub bytes : List ℕ

pub record SdCard : Type 1 where
  pub Fs : Type 0
  -- SD.cardType() == CARD_NONE
  pub card_missing : Fs → Bool
  pub exists : Fs → List ℕ → Bool
  pub mkdir : Fs → List ℕ → Bool × Fs
  pub remove : Fs → List ℕ → Bool × Fs
  pub rename : Fs → List ℕ → List ℕ → Bool × Fs
  -- SD.open(path, FILE_READ)
  pub open_read : Fs → List ℕ → Option OpenFile
  -- SD.open(path, FILE_WRITE), and a write at the end of that file: the count of bytes written
  pub open_write : Fs → List ℕ → Option Fs
  pub write : Fs → List ℕ → List ℕ → ℕ × Fs
  -- SD.open(path, "r+"), seek(0), and a write at the file's start
  pub open_update : Fs → List ℕ → Option OpenFile
  pub seek_start : Fs → List ℕ → Bool
  pub overwrite : Fs → List ℕ → List ℕ → ℕ × Fs
  -- The entries of a directory, in the order of openNextFile(); `none` if it cannot be opened.
  pub open_dir : Fs → List ℕ → Option (List DirEntry)

-- A card that keeps what it says it has written.
pub record IsReliable (sd : SdCard) : Type 0 where
  pub opened_empty :
      (fs fs' : sd.Fs) (path : List ℕ)
      → sd.open_write fs path ≡ some fs'
      → sd.open_read fs' path ≡ some (record { size = 0; bytes = [] })
  pub written :
      (fs fs' : sd.Fs) (path text : List ℕ) (count : ℕ) (f : OpenFile)
      → sd.open_read fs path ≡ some f
      → sd.write fs path text ≡ (count, fs')
      → sd.open_read fs' path
        ≡ some (record { size = f.size + count; bytes = f.bytes ++ take count text })
  pub renamed :
      (fs fs' : sd.Fs) (from to : List ℕ)
      → sd.rename fs from to ≡ (true, fs')
      → sd.open_read fs' to ≡ sd.open_read fs from
