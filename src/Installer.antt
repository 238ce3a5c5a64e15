-- ===== src/Installer.antt =====
-- The installer (internal/installer/installer.go): the machine it acts on, the file operations, the
-- operations of the manager, which files each of them leaves alone, and what they lead to.
pub mod System
pub mod Storage
pub mod Setup
pub mod Install
pub mod Frame
pub mod Leads
pub mod Snapshots
pub mod Rollback
pub mod Outcome
pub mod Installed
pub mod Removal
pub mod Removed
pub mod Roundtrip
pub mod Ready
