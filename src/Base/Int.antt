-- ===== src/Base/Int.antt =====
-- The integers that C's `int` stands for, as far as the firmware compares them.
use multisensory_device.Base.{ℕ, Bool, true, false, ◌≡◌, ◌↔◌, arith, ◌==◌}

-- `negsuc n` is -(n + 1).
pub data ℤ : Type 0 where
  pos : ℕ → ℤ
  negsuc : ℕ → ℤ

abbrev pub is_negative : ℤ → Bool
is_negative (pos n) = false
is_negative (negsuc n) = true

unfoldable pub same_int : ℤ → ℤ → Bool
same_int (pos m) (pos n) = m == n
same_int (negsuc m) (negsuc n) = m == n
same_int _ _ = false

pub same_int_iff : (a b : ℤ) → (same_int a b ≡ true) ↔ (a ≡ b)
unfolding same_int
same_int_iff (pos m) (pos n) = (λ e. ground arith, λ e. ground arith)
same_int_iff (pos m) (negsuc n) = (λ e. ground arith, λ e. ground arith)
same_int_iff (negsuc m) (pos n) = (λ e. ground arith, λ e. ground arith)
same_int_iff (negsuc m) (negsuc n) = (λ e. ground arith, λ e. ground arith)
