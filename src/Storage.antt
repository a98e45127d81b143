-- ===== src/Storage.antt =====
-- medusa/storage: the object store behind its driver, the names of the index, the node backups,
-- and how they are listed.
pub mod Driver
pub mod Names
pub mod NodeBackup
pub mod Hashing
pub mod Discovery
pub mod Listing
pub mod LocalStorage
pub mod S3
pub mod Tables
pub mod Transfers
pub mod Clusters
