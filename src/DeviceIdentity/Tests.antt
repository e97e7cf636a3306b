-- ===== src/DeviceIdentity/Tests.antt =====
-- The theorems on the identity, over storage that is a number.
use multisensory_device.Base.{ℕ, ◌≡◌, ◌≢◌, refl, ap, sym, true, false, some, arith}
use multisensory_device.Base.Text.{codes}
use multisensory_device.Base.Decimal.{print_decimal}
use multisensory_device.DeviceIdentity.{
  Preferences, KeepsNumbers, DeviceIdentity, successor, begin, sample_text, format_sample_id,
}
use multisensory_device.DeviceIdentity.BootIds.{begin_twice}
use multisensory_device.DeviceIdentity.SampleIds.{format_sample_id_injective}

abbrev cell : Preferences
cell = record {
  Nvs = ℕ;
  open_namespace = λ _ _. true;
  get_uint = λ nvs _ _ _. nvs;
  put_uint = λ _ _ _ value. (4, value);
}

cell-KeepsNumbers : KeepsNumbers cell
cell-KeepsNumbers = record { kept = λ nvs nvs' space key value default e. ap (λ r. r.1) (sym e) }

abbrev blank : DeviceIdentity
blank = record { boot_id = 0; sequence = 0; valid = false }

abbrev first : DeviceIdentity
first = (begin cell blank 41).1

abbrev second : DeviceIdentity
second = (begin cell blank (begin cell blank 41).2).1

started : ((begin cell blank 41).0 ≡ true) × ((begin cell blank (begin cell blank 41).2).0 ≡ true)
unfolding begin
started = (refl, refl)

begin_twice_example :
    (first.boot_id ≢ 0)
    × (second.boot_id ≢ 0)
    × (second.boot_id ≢ first.boot_id)
    × (second.boot_id ≡ successor first.boot_id)
    × (second.sequence ≡ 0)
    × (second.valid ≡ true)
begin_twice_example = begin_twice cell cell-KeepsNumbers blank blank 41 started.0 started.1

abbrev boot : DeviceIdentity
boot = record { boot_id = 42; sequence = 0; valid = true }

printed : format_sample_id (codes "vs-001") boot 3 128 ≡ some (sample_text (codes "vs-001") 42 3)
unfolding format_sample_id sample_text print_decimal
printed = refl

format_sample_id_injective_example : (◌≡◌ {A = ℕ} 42 42) × (◌≡◌ {A = ℕ} 3 3)
format_sample_id_injective_example =
    format_sample_id_injective (codes "vs-001") boot boot 3 3 128
      (sample_text (codes "vs-001") 42 3) (omega arith) (omega arith) (omega arith) (omega arith)
      printed printed
