-- ===== src/Http.antt =====
-- The HTTP server (internal/httpapi): which requests
-- are refused, which are answered, and which are passed on to the backend.
pub mod Types
pub mod Handlers
pub mod Extensions
pub mod Routes
pub mod Guards
pub mod Silence
pub mod Forwarding
