-- ===== src/Storage/OfflineQueue/Upkeep.antt =====
-- Upkeep at each turn of the main loop: `update`.
use multisensory_device.Base.{ℕ, zero, suc, Bool, true, not, ◌&&◌, ltb, leb, if◌then◌else◌, elapsed}
use multisensory_device.Config.{offline_queue_max_age_seconds, sd_retry_interval_ms}
use multisensory_device.Storage.SdCard.{SdCard}
use multisensory_device.Storage.OfflineQueue.{
  OfflineQueue, set_unavailable, refresh_oldest_age, remove_oldest,
}
use multisensory_device.Storage.OfflineQueue.Intake.{begin}

abbrev pub expired : OfflineQueue → Bool
expired q = ltb 0 q.queued && ltb offline_queue_max_age_seconds q.oldest_age_seconds

module _ (sd : SdCard) where
  open sd use {Fs}

  -- The loop removes a record a round, so `queued` rounds are enough.
  unfoldable pub expire : ℕ → ℕ → ℕ → OfflineQueue → Fs → OfflineQueue × Fs
  expire zero now now_epoch q fs = (q, fs)
  expire (suc fuel) now now_epoch q fs =
      let (removed, q1, fs1) = remove_oldest sd true q fs in
      let rest = expire fuel now now_epoch (refresh_oldest_age sd now_epoch q1 fs1) fs1 in
      if expired q then (if removed then rest else (set_unavailable now q1, fs1)) else (q, fs)

  unfoldable pub update : ℕ → ℕ → ℕ → Bool → OfflineQueue → Fs → OfflineQueue × Fs
  update millis now now_epoch storage_ready q fs =
      let (_, q1, fs1) = begin sd millis q.current_boot_id q fs in
      let q2 = refresh_oldest_age sd now_epoch q fs in
      if not storage_ready
      then (set_unavailable now q, fs)
      else if not q.ready
      then (if leb sd_retry_interval_ms (elapsed now q.last_begin_attempt_ms)
          then (q1, fs1)
          else (q, fs))
      else if ltb (elapsed now q2.last_maintenance_ms) 1000
      then (q2, fs)
      else expire q2.queued now now_epoch (record q2 { last_maintenance_ms = now }) fs
