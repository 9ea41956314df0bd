-- ===== src/Mirror.antt =====
-- Freezing model weights into a store (internal/mirror): the types, the state monad of operations
-- that act on a store, and the interface `Store` (internal/mirror/store.go).
pub mod Effects
pub mod Store
pub mod Policy
pub mod Push
pub mod Pull
pub mod Pages
pub mod Client
