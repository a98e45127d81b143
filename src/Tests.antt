-- ===== src/Tests.antt =====
-- The theorems at concrete inputs.
mod Fixture
mod Listing
mod Selection
mod Clusters
mod Backups
mod Restores
mod Server
mod Commands
mod Others
