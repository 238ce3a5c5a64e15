-- ===== src/Tests.antt =====
-- The theorems applied to concrete inputs.
mod Placement
mod Manifests
mod Admission
mod Registry
mod Router
mod Versions
mod Upstream
mod Calibration
mod Benchmark
mod Limits
mod Installer
mod Services
mod Resource
