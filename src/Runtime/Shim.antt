-- ===== src/Runtime/Shim.antt =====
-- The serving shim in front of the engine (internal/runtime/shim.go).
pub mod Prompt
pub mod Surfaces
pub mod Losses
pub mod Serve
pub mod Routes
pub mod Dispatch
pub mod Metrics
