-- ===== src/DeviceIdentity/SampleIds.antt =====
-- Sample ids tell samples apart.
use mathlib.Core.List.{append_cancel_left}
use multisensory_device.Base.{
  ℕ, ◌≤◌, ◌<◌, ◌≡◌, sym, ◌∙◌, ap, refl, true, some, List, [], ◌∷◌, ◌++◌, arith, All, u32_mod,
  length, length-append,
}
use multisensory_device.Base.Decimal.{
  print_decimal, value, value-print_decimal, IsDigit, print_decimal-IsDigit, length-print_decimal,
}
use multisensory_device.DeviceIdentity.{DeviceIdentity, sample_text, format_sample_id}

split_colon :
    (a b x y : List ℕ)
    → All IsDigit a
    → All IsDigit b
    → a ++ (b':' ∷ x) ≡ b ++ (b':' ∷ y)
    → (a ≡ b) × (x ≡ y)
split_colon [] [] x y ha hb e = (refl, ground arith)
split_colon [] (c ∷ b) x y ha hb e = absurd (ground arith)
split_colon (c ∷ a) [] x y ha hb e = absurd (ground arith)
split_colon (c ∷ a) (d ∷ b) x y ha hb e =
    let (rest, same) = split_colon a b x y ha.1 hb.1 (ground arith) in (ground (arith, rest), same)

print_decimal_injective :
    (m n : ℕ) → m < u32_mod → n < u32_mod → print_decimal 10 m ≡ print_decimal 10 n → m ≡ n
print_decimal_injective m n hm hn e =
    sym (value-print_decimal 10 m (omega arith))
    ∙ ap value e
    ∙ value-print_decimal 10 n (omega arith)

-- A device gives the same sample id to two samples only if they are of the same boot and have the same
-- sequence number; so the id identifies the sample, also for the receiver that drops duplicates.
pub format_sample_id_injective :
    (device_id : List ℕ) (d e : DeviceIdentity) (m n size : ℕ) (text : List ℕ)
    → d.boot_id < u32_mod
    → e.boot_id < u32_mod
    → m < u32_mod
    → n < u32_mod
    → format_sample_id device_id d m size ≡ some text
    → format_sample_id device_id e n size ≡ some text
    → (d.boot_id ≡ e.boot_id) × (m ≡ n)
unfolding format_sample_id sample_text
format_sample_id_injective device_id d e m n size text hd he hm hn p q =
    let same : sample_text device_id d.boot_id m ≡ sample_text device_id e.boot_id n =
      ground arith in
    let tail = append_cancel_left device_id _ _ same in
    let (boots, sequences) =
      split_colon (print_decimal 10 d.boot_id) (print_decimal 10 e.boot_id) _ _
        (print_decimal-IsDigit 10 d.boot_id) (print_decimal-IsDigit 10 e.boot_id)
        (ground (arith, tail)) in
    (
      print_decimal_injective d.boot_id e.boot_id hd he boots,
      print_decimal_injective m n hm hn sequences,
    )

-- For a device id of at most 64 characters the id of a valid identity's sample always fits the 128
-- bytes that the telemetry gives it.
pub format_sample_id_fits :
    (device_id : List ℕ) (d : DeviceIdentity) (n : ℕ)
    → length device_id ≤ 64
    → d.valid ≡ true
    → 0 < n
    → format_sample_id device_id d n 128 ≡ some (sample_text device_id d.boot_id n)
unfolding format_sample_id sample_text
format_sample_id_fits device_id d n short v pos = ground (
  arith,
  length-append device_id (b':' ∷ (print_decimal 10 d.boot_id ++ (b':' ∷ print_decimal 10 n))),
  length-append (print_decimal 10 d.boot_id) (b':' ∷ print_decimal 10 n),
  length-print_decimal 10 d.boot_id,
  length-print_decimal 10 n,
)
