-- ===== src/Storage.antt =====
-- storage/: the durable spool of telemetry on the memory card.
pub mod SdCard
pub mod OfflineRecord
pub mod OfflineQueue
