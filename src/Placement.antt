-- ===== src/Placement.antt =====
-- The placement planner (internal/placement/placement.go): which bytes of a model go to RAM, VRAM
-- or NVMe. This file holds the data and the memory figures; the children hold the allocation
-- steps, the plan that `Build` returns, and the proofs.
pub mod Types
pub mod Allocate
pub mod Build
pub mod Ledger
pub mod Steps
pub mod Conservation
pub mod Capacity
pub mod Decisions
