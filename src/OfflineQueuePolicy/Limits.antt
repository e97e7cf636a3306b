-- ===== src/OfflineQueuePolicy/Limits.antt =====
-- The limits of the spool and the age of a record.
use multisensory_device.Base.{ℕ, ◌+◌, ◌-◌, ◌≤◌, ◌<◌, ◌≡◌, ◌↔◌, false, arith, min}
use multisensory_device.OfflineQueuePolicy.{exceeds_limits, age_seconds, uint32_max}

-- The test passes exactly where one more record, of the given size, keeps the spool within both
-- limits; the subtraction in the code never wraps.
pub exceeds_limits_iff :
    (queued bytes next max_records max_bytes : ℕ)
    → (exceeds_limits queued bytes next max_records max_bytes ≡ false)
      ↔ ((queued < max_records) × (bytes + next ≤ max_bytes))
unfolding exceeds_limits
exceeds_limits_iff queued bytes next max_records max_bytes = (λ e. ground arith, λ e. ground arith)

-- With both clocks set the age is the elapsed time, not below 0 and not above what a `uint32_t`
-- holds; with a clock unset (0) it is 0; and it never falls as the clock goes on.
pub age_seconds_lem :
    (enqueued now later : ℕ)
    → now ≤ later
    → (age_seconds 0 now ≡ 0)
      × (age_seconds enqueued 0 ≡ 0)
      × (age_seconds (enqueued + 1) now ≡ min (now - (enqueued + 1)) uint32_max)
      × (age_seconds enqueued now ≤ age_seconds enqueued later)
unfolding age_seconds
age_seconds_lem enqueued now later h = (ground arith, ground arith, ground arith, ground arith)
