-- ===== src/Fs.antt =====
-- FS5, the content-addressed file system (s5_fs/src).
pub mod Dir
pub mod Actor
pub mod Merge
pub mod Gc
pub mod Sharding
pub mod Listing
pub mod Snapshots
pub mod SnapshotIndex
pub mod CreateDir
pub mod Tree
