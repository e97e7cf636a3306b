-- ===== src/Floats/Fixed.antt =====
-- Numbers that the tests compute with: ten-thousandths above a fixed negative offset, all of them finite.
use multisensory_device.Base.{ℕ, ◌+◌, ◌-◌, ◌*◌, ◌/◌, ◌^◌, true, ltb, leb, min, max}
use multisensory_device.Base.Int.{ℤ, pos, negsuc}
use multisensory_device.Floats.{Arithmetic, Floats}

-- The representation of 0.
abbrev zero_at : ℕ
zero_at = 1000000000

abbrev scaled : ℤ → ℕ → ℕ
scaled (pos n) k = zero_at + n * 10000 / 10 ^ k
scaled (negsuc n) k = zero_at - (n + 1) * 10000 / 10 ^ k

abbrev pub fixed_point : Arithmetic ℕ
fixed_point = record {
  literal = scaled;
  at_least = λ a b. leb b a;
  exceeds = λ a b. ltb b a;
  is_finite = λ a. true;
  add = λ a b. a + b - zero_at;
  sub = λ a b. a + zero_at - b;
  mul = λ a b. zero_at + (a - zero_at) * (b - zero_at) / 10000;
  div = λ a b. zero_at + (a - zero_at) * 10000 / (b - zero_at);
  minimum = min;
  maximum = max;
}

abbrev pub fixed_floats : Floats
fixed_floats = record {
  Float = ℕ;
  Double = ℕ;
  float = fixed_point;
  double = fixed_point;
  to_double = λ a. a;
  to_float = λ a. a;
  float_of = λ n. zero_at + n * 10000;
  double_of = λ n. zero_at + n * 10000;
  power_of_ten = λ a. a;
  log10 = λ a. a;
}
