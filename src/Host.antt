-- ===== src/Host.antt =====
-- What the program knows of the machine (internal/hostprofile, internal/hostlimits).
pub mod Profile
pub mod Limits
