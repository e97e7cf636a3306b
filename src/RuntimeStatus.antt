-- ===== src/RuntimeStatus.antt =====
-- system/RuntimeStatus.h: the states that parts of the device report.
use multisensory_device.Base.{ℕ, Bool}

pub record StorageStatus : Type 0 where
  pub initialized : Bool
  pub mounted : Bool
  pub last_write_ok : Bool
  pub total_bytes : ℕ
  pub used_bytes : ℕ
  pub free_bytes : ℕ
  pub last_write_ms : ℕ
  pub boot_session : ℕ
  pub segment : ℕ

pub record OtaStatus : Type 0 where
  pub enabled : Bool
  pub in_progress : Bool
  pub last_update_ok : Bool
  pub last_activity_ms : ℕ
