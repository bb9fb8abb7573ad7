-- ===== src/SyncManager.antt =====
-- chain/sync_manager.go: the scheduler that chooses which tipset is synced next.
-- `Bucket` is syncTargetBucket and syncBucketSet, `State` the manager's fields, `Schedule` the
-- handlers of the scheduler's loop.
pub mod Bucket
pub mod State
pub mod Schedule
pub mod Invariant
pub mod Tracking
pub mod Select
pub mod Run
