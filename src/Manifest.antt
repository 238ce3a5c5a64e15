-- ===== src/Manifest.antt =====
-- Model manifests (internal/modelmanifest/manifest.go).
pub mod Types
pub mod Version
pub mod Validate
pub mod Names
