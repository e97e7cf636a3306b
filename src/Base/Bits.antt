-- ===== src/Base/Bits.antt =====
-- Masks: `x & (2 ^ k - 1)`, the single bit `x & 2 ^ k` and `2 ^ k | y`, at every width.
use Prim.Native.Nat.{digits, bit_and-bitwise, bit_or-bitwise}
use native.Mathlib.Nat.{
  mul-add-mod_self_left, mod-eq_of_lt, mod-lt, div-div-eq-div-mul, div-add-mod,
}
use multisensory_device.Base.{
  ℕ, zero, suc, ◌+◌, ◌*◌, ◌/◌, ◌%◌, ◌≤◌, ◌<◌, min, max, bit_and, bit_or, ◌≡◌, refl, sym, ◌∙◌, ap,
  arith,
}

-- Fuel above the number itself changes nothing.
more_fuel :
    (z : ℕ → ℕ) (f : ℕ → ℕ → ℕ) (n m a b : ℕ) → a ≤ n → a ≤ m → digits z f n a b ≡ digits z f m a b
more_fuel z f zero zero a b p q = refl
more_fuel z f zero (suc m) zero b p q = refl
more_fuel z f zero (suc m) (suc a) b p q = absurd (omega arith)
more_fuel z f (suc n) zero zero b p q = refl
more_fuel z f (suc n) zero (suc a) b p q = absurd (omega arith)
more_fuel z f (suc n) (suc m) zero b p q = refl
more_fuel z f (suc n) (suc m) (suc a) b p q =
    ap (λ (t : ℕ). t * 2 + f (suc a % 2) (b % 2))
      (more_fuel z f n m (suc a / 2) (b / 2) (omega arith) (omega arith))

and_half : (a b : ℕ) → bit_and a b ≡ bit_and (a / 2) (b / 2) * 2 + min (a % 2) (b % 2)
and_half zero b = omega (arith, bit_and-bitwise 0 b, bit_and-bitwise 0 (b / 2))
and_half (suc a) b = omega (
  arith,
  bit_and-bitwise (suc a) b,
  bit_and-bitwise (suc a / 2) (b / 2),
  more_fuel (λ y. 0) min a (suc a / 2) (suc a / 2) (b / 2) (omega arith) (omega arith),
)

or_half : (a b : ℕ) → bit_or a b ≡ bit_or (a / 2) (b / 2) * 2 + max (a % 2) (b % 2)
or_half zero b = omega (arith, bit_or-bitwise 0 b, bit_or-bitwise 0 (b / 2))
or_half (suc a) b = omega (
  arith,
  bit_or-bitwise (suc a) b,
  bit_or-bitwise (suc a / 2) (b / 2),
  more_fuel (λ y. y) max a (suc a / 2) (suc a / 2) (b / 2) (omega arith) (omega arith),
)

abbrev pub pow2 : ℕ → ℕ
pow2 zero = 1
pow2 (suc k) = 2 * pow2 k

-- The mask of `k` ones.
abbrev pub ones : ℕ → ℕ
ones zero = 0
ones (suc k) = 2 * ones k + 1

pow2_pos : (k : ℕ) → 0 < pow2 k
pow2_pos zero = omega arith
pow2_pos (suc k) = omega (arith, pow2_pos k)

and_zero_below : (n a : ℕ) → a ≤ n → bit_and a 0 ≡ 0
and_zero_below n zero h = refl
and_zero_below zero (suc a) h = absurd (omega arith)
and_zero_below (suc n) (suc a) h =
    omega (arith, and_half (suc a) 0, and_zero_below n (suc a / 2) (omega arith))

and_zero : (a : ℕ) → bit_and a 0 ≡ 0
and_zero a = and_zero_below a a (omega arith)

mod_double : (a m : ℕ) → 0 < m → (a / 2 % m) * 2 + a % 2 ≡ a % (2 * m)
mod_double a m h =
    let low = (a / 2 % m) * 2 + a % 2 in
    let split : 2 * m * (a / 2 / m) + low ≡ a = omega (arith, div-add-mod (a / 2) m) in
    let small : low < 2 * m = omega (arith, mod-lt (a / 2) h) in
    sym (
      ap (λ (t : ℕ). t % (2 * m)) (sym split)
      ∙ mul-add-mod_self_left (2 * m) (a / 2 / m) low
      ∙ mod-eq_of_lt small)

pub bit_and-ones : (k a : ℕ) → bit_and a (ones k) ≡ a % pow2 k
bit_and-ones zero a = omega (arith, and_zero a)
bit_and-ones (suc k) a = omega (
  arith,
  and_half a (ones (suc k)),
  ap (bit_and (a / 2)) (half (ones k)),
  bit_and-ones k (a / 2),
  mod_double a (pow2 k) (pow2_pos k),
)
  where
    half : (t : ℕ) → (2 * t + 1) / 2 ≡ t
    half t = omega arith

pub bit_and-pow2 : (k a : ℕ) → bit_and a (pow2 k) ≡ a / pow2 k % 2 * pow2 k
bit_and-pow2 zero a = omega (arith, and_half a 1, and_zero (a / 2))
bit_and-pow2 (suc k) a = omega (
  arith,
  and_half a (pow2 (suc k)),
  ap (bit_and (a / 2)) (half (pow2 k)),
  bit_and-pow2 k (a / 2),
  ap (λ (t : ℕ). t % 2 * pow2 k) (div-div-eq-div-mul a 2 (pow2 k)),
)
  where
    half : (t : ℕ) → 2 * t / 2 ≡ t
    half t = omega arith

pub bit_or-pow2 : (k y : ℕ) → y < pow2 k → bit_or (pow2 k) y ≡ pow2 k + y
bit_or-pow2 zero zero h = refl
bit_or-pow2 zero (suc y) h = absurd (omega arith)
bit_or-pow2 (suc k) y h = omega (
  arith,
  or_half (pow2 (suc k)) y,
  ap (λ (t : ℕ). bit_or t (y / 2)) (half (pow2 k)),
  bit_or-pow2 k (y / 2) (omega arith),
)
  where
    half : (t : ℕ) → 2 * t / 2 ≡ t
    half t = omega arith
