-- ===== src/Llama.antt =====
-- The adapter for llama.cpp (internal/llamacpp/client.go): which requests it translates, and how it
-- translates the backend's streams.
pub mod Stream
pub mod Chunks
pub mod Ending
pub mod Requests
pub mod Adapter
pub mod Forwarding
