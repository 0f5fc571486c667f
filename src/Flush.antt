-- ===== src/Flush.antt =====
-- flush/: the Parquet files, their upload, and the snapshot cycle.
pub mod Parquet
pub mod Upload
pub mod Snapshot
pub mod Scheduler
