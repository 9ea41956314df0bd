-- ===== src/Tests.antt =====
-- Test data, runs of the definitions, and the theorems at concrete inputs.
pub mod Fixtures
pub mod Manifests
pub mod Buckets
pub mod Deploys
pub mod Mirrors
mod Runtimes
mod Starts
mod Models
mod Shims
mod Tools
mod Pools
mod Commands
pub mod Agents
mod Hosts
mod Pushes
