-- ===== src/Backoff.antt =====
-- The deadlines and the growing delays that the network clients share: each of SecureMqttClient,
-- MQTTClientCustom and WiFiManagerCustom has its copy of these two functions.
use multisensory_device.Base.{
  ℕ, zero, suc, ◌+◌, ◌*◌, ◌%◌, ◌≤◌, ◌<◌, ◌≡◌, ◌↔◌, ◌-◌, true, not, Bool-cases, inl, inr, refl, Bool,
  arith, min, ltb, if◌then◌else◌, u32_mod, add32, elapsed,
}
use multisensory_device.Base.Bits.{pow2}
use multisensory_device.Config.{reconnect_backoff_min_ms, reconnect_backoff_max_ms}

-- static_cast<int32_t>(now - deadline) >= 0
unfoldable pub reached : ℕ → ℕ → Bool
reached now deadline = ltb (elapsed now deadline) 2147483648

unfoldable pub increase_backoff : ℕ → ℕ
increase_backoff backoff =
    let doubled = backoff * 2 % u32_mod in
    if ltb backoff reconnect_backoff_max_ms
    then (if ltb reconnect_backoff_max_ms doubled then reconnect_backoff_max_ms else doubled)
    else backoff

-- The delay after a number of failed attempts in a row.
pub backoff_after : ℕ → ℕ
backoff_after zero = reconnect_backoff_min_ms
backoff_after (suc n) = increase_backoff (backoff_after n)

-- The delay doubles from five seconds up to half a minute and stays there.
pub backoff_after_lem : (n : ℕ) → backoff_after n ≡ min (5000 * pow2 n) 30000
unfolding backoff_after increase_backoff
backoff_after_lem zero = refl
backoff_after_lem (suc n) = ground (arith, backoff_after_lem n)

pub increase_backoff_bounds :
    (b : ℕ) → 5000 ≤ b → b ≤ 30000 → (5000 ≤ increase_backoff b) × (increase_backoff b ≤ 30000)
unfolding increase_backoff
increase_backoff_bounds b h k = ground arith

-- A deadline that lies `wait` milliseconds ahead, less than 2 ^ 31, is met exactly when that time is over,
-- in the first 2 ^ 31 milliseconds after it was set, also where the clock wraps around.
pub reached_lem :
    (now wait later : ℕ)
    → now < u32_mod
    → wait < 2147483648
    → later < 2147483648
    → (reached (add32 now later) (add32 now wait) ≡ true) ↔ (wait ≤ later)
unfolding reached
reached_lem now wait later h k l =
    let ahead : elapsed (add32 now later) (add32 now wait) ≡ (later + u32_mod - wait) % u32_mod =
      omega arith in
    (λ e. ground (arith, ahead), λ e. ground (arith, ahead))

pub reached-not :
    (now wait later : ℕ)
    → now < u32_mod
    → wait < 2147483648
    → later < 2147483648
    → reached (add32 now later) (add32 now wait) ≡ not (ltb later wait)
reached-not now wait later h k l = elim (Bool-cases (reached (add32 now later) (add32 now wait))) [
  | inl e ↦ (let late = (reached_lem now wait later h k l).0 e in ground (arith, e, late))
  | inr e ↦
      (let early : later < wait = ground (arith, e, (reached_lem now wait later h k l).1) in
        ground (arith, e, early))
]
