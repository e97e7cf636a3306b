-- ===== src/MicroSdLogger/Paths.antt =====
-- The names of the log files.
use mathlib.Core.List.{append_cancel_left}
use multisensory_device.Base.{
  ℕ, ◌<◌, ◌≡◌, ◌⊎◌, inl, inr, sym, ◌∙◌, ap, refl, List, [], ◌∷◌, ◌++◌, arith, All, u32_mod,
}
use multisensory_device.Base.Text.{codes}
use multisensory_device.Base.Decimal.{
  value, value-print_decimal, value-print_padded, IsDigit, print_decimal-IsDigit,
  print_padded-IsDigit,
}
use multisensory_device.MicroSdLogger.{log_directory, at_least_6, at_least_3, segment_path}

split_at :
    (sep : ℕ) (a b x y : List ℕ)
    → sep < 48 ⊎ 57 < sep
    → All IsDigit a
    → All IsDigit b
    → a ++ (sep ∷ x) ≡ b ++ (sep ∷ y)
    → (a ≡ b) × (x ≡ y)
split_at sep [] [] x y s ha hb e = (refl, ground arith)
split_at sep [] (c ∷ b) x y s ha hb e = absurd (ground arith)
split_at sep (c ∷ a) [] x y s ha hb e = absurd (ground arith)
split_at sep (c ∷ a) (d ∷ b) x y s ha hb e =
    let (rest, same) = split_at sep a b x y s ha.1 hb.1 (ground arith) in
    (ground (arith, rest), same)

at_least_6-IsDigit : (n : ℕ) → All IsDigit (at_least_6 n)
at_least_6-IsDigit n = ground (arith, print_padded-IsDigit 6 n, print_decimal-IsDigit 10 n)

at_least_3-IsDigit : (n : ℕ) → All IsDigit (at_least_3 n)
at_least_3-IsDigit n = ground (arith, print_padded-IsDigit 3 n, print_decimal-IsDigit 10 n)

value-at_least_6 : (n : ℕ) → n < u32_mod → value (at_least_6 n) ≡ n
value-at_least_6 n h =
    ground (arith, value-print_padded 6 n, value-print_decimal 10 n (omega arith))

value-at_least_3 : (n : ℕ) → n < u32_mod → value (at_least_3 n) ≡ n
value-at_least_3 n h =
    ground (arith, value-print_padded 3 n, value-print_decimal 10 n (omega arith))

-- Two segments have the same file name only if they are the same segment of the same boot: no boot appends to
-- a file of another one, also where the numbers outgrow the places that the name pads them to.
pub segment_path_injective :
    (boot boot' segment segment' : ℕ)
    → boot < u32_mod
    → boot' < u32_mod
    → segment < u32_mod
    → segment' < u32_mod
    → segment_path boot segment ≡ segment_path boot' segment'
    → (boot ≡ boot') × (segment ≡ segment')
unfolding segment_path
segment_path_injective boot boot' segment segment' h h' k k' e =
    let file = append_cancel_left (codes "/boot_") _ _ (append_cancel_left log_directory _ _ e) in
    let (boots, rest) =
      split_at b'_' (at_least_6 boot) (at_least_6 boot') _ _ (inr (omega arith))
        (at_least_6-IsDigit boot) (at_least_6-IsDigit boot') file in
    let (segments, end) =
      split_at b'.' (at_least_3 segment) (at_least_3 segment') (codes "jsonl") (codes "jsonl")
        (inl (omega arith)) (at_least_3-IsDigit segment) (at_least_3-IsDigit segment') rest in
    (
      sym (value-at_least_6 boot h) ∙ ap value boots ∙ value-at_least_6 boot' h',
      sym (value-at_least_3 segment k) ∙ ap value segments ∙ value-at_least_3 segment' k',
    )
