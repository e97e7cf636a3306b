-- ===== src/Base/Words.antt =====
-- `uint32_t` arithmetic, as the firmware's timers use it.
use Prim.Native.Nat.{ℕ, ◌+◌, ◌-◌, ◌%◌, ◌<◌}
use mathlib.Core.Path.{◌≡◌}
use native.Mathlib.Omega.{arith}

abbrev pub u32_mod : ℕ
u32_mod = 4294967296

abbrev pub add32 : ℕ → ℕ → ℕ
add32 a b = (a + b) % u32_mod

-- `static_cast<uint32_t>(now - since)`: the milliseconds since a moment, across one wrap.
abbrev pub elapsed : ℕ → ℕ → ℕ
elapsed now since = (now + u32_mod - since) % u32_mod

pub elapsed-add32 :
    (since d : ℕ) → since < u32_mod → d < u32_mod → elapsed (add32 since d) since ≡ d
elapsed-add32 since d h k = omega arith
