-- ===== src/Floats.antt =====
-- The floating-point numbers of the compiler, which are not part of the repository: a parameter of
-- the model, with the operations that the source uses.
pub mod Fixed
use multisensory_device.Base.{ℕ, Bool, ◌&&◌}
use multisensory_device.Base.Int.{ℤ}

-- One floating-point type. `literal n k` is the constant n / 10 ^ k.
pub record Arithmetic (F : Type 0) : Type 0 where
  pub literal : ℤ → ℕ → F
  -- `>=` and `>`, both false on NaN
  pub at_least : F → F → Bool
  pub exceeds : F → F → Bool
  pub is_finite : F → Bool
  pub add : F → F → F
  pub sub : F → F → F
  pub mul : F → F → F
  pub div : F → F → F
  -- std::min and std::max
  pub minimum : F → F → F
  pub maximum : F → F → F

-- `float` and `double`, the conversions between them and from a count, 10 ^ x, and the logarithm to base 10.
pub record Floats : Type 1 where
  pub Float : Type 0
  pub Double : Type 0
  pub float : Arithmetic Float
  pub double : Arithmetic Double
  pub to_double : Float → Double
  pub to_float : Double → Float
  pub float_of : ℕ → Float
  pub double_of : ℕ → Double
  pub power_of_ten : Double → Double
  pub log10 : Double → Double

-- `low <= x && x <= high`
abbrev pub within : {F : Type 0} → Arithmetic F → F → ℤ → ℤ → Bool
within a x low high = a.at_least x (a.literal low 0) && a.at_least (a.literal high 0) x
