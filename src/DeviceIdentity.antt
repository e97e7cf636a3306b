-- ===== src/DeviceIdentity.antt =====
-- system/DeviceIdentity.h and .cpp: the boot id, kept in non-volatile storage, and the sequence numbers.
pub mod BootIds
pub mod SampleIds
mod Tests
use multisensory_device.Base.{
  ℕ, ◌+◌, ◌≡◌, Bool, true, false, not, ◌&&◌, ◌||◌, Option, none, some, List, [], ◌∷◌, ◌++◌, ltb,
  ◌==◌, if◌then◌else◌, length, add32,
}
use multisensory_device.Base.Decimal.{print_decimal}
use multisensory_device.Base.Text.{codes}

-- What is used of the Preferences library, which is not part of the repository: a namespace is opened,
-- and an unsigned number is read with a default and written; a write says how many bytes it stored.
pub record Preferences : Type 1 where
  pub Nvs : Type 0
  pub open_namespace : Nvs → List ℕ → Bool
  pub get_uint : Nvs → List ℕ → List ℕ → ℕ → ℕ
  pub put_uint : Nvs → List ℕ → List ℕ → ℕ → ℕ × Nvs

-- Storage that keeps what it says it has stored.
pub record KeepsNumbers (p : Preferences) : Type 0 where
  pub kept :
      (nvs nvs' : p.Nvs) (space key : List ℕ) (value default : ℕ)
      → p.put_uint nvs space key value ≡ (4, nvs')
      → p.get_uint nvs' space key default ≡ value

pub record DeviceIdentity : Type 0 where
  pub boot_id : ℕ
  pub sequence : ℕ
  pub valid : Bool

abbrev pub namespace : List ℕ
namespace = codes "vs_identity"

abbrev pub boot_id_key : List ℕ
boot_id_key = codes "boot_id"

-- ++value on 32 bits, with 0 skipped.
abbrev pub successor : ℕ → ℕ
successor n = if add32 n 1 == 0 then 1 else add32 n 1

module _ (p : Preferences) where
  open p use {Nvs, open_namespace, get_uint, put_uint}

  unfoldable pub begin : DeviceIdentity → Nvs → Bool × DeviceIdentity × Nvs
  begin d nvs =
      let next = successor (get_uint nvs namespace boot_id_key 0) in
      let (count, nvs1) = put_uint nvs namespace boot_id_key next in
      if not (open_namespace nvs namespace)
      then (false, d, nvs)
      else if count == 4
      then (true, record { boot_id = next; sequence = 0; valid = true }, nvs1)
      else (false, d, nvs1)

unfoldable pub next_sequence : DeviceIdentity → ℕ × DeviceIdentity
next_sequence d =
    let next = successor d.sequence in
    if not d.valid then (0, d) else (next, record d { sequence = next })

-- snprintf("%s:%lu:%lu"); a number below 2 ^ 32 takes ten places at most.
unfoldable pub sample_text : List ℕ → ℕ → ℕ → List ℕ
sample_text device_id boot_id sequence =
    device_id ++ (b':' ∷ (print_decimal 10 boot_id ++ (b':' ∷ print_decimal 10 sequence)))

-- `none` is the result `false`. The output pointer is never null.
unfoldable pub format_sample_id : List ℕ → DeviceIdentity → ℕ → ℕ → Option (List ℕ)
format_sample_id device_id d sequence output_size =
    let text = sample_text device_id d.boot_id sequence in
    if not d.valid || sequence == 0 || output_size == 0
    then none
    else if ltb (length text) output_size
    then some text
    else none
