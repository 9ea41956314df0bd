-- ===== src/Runtime.antt =====
-- The serving runtime (internal/runtime).
pub mod Command
pub mod Weights
pub mod Preflight
pub mod Serve
pub mod Shim
