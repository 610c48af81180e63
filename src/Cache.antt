-- ===== src/Cache.antt =====
-- packages/core/src/cache.ts.
pub mod Epochs
pub mod Types
pub mod Exec
pub mod Calls
pub mod Guarded
pub mod Store
pub mod Fetch
pub mod Polling
pub mod Query
pub mod Setup
pub mod Invalidate
pub mod Distributed
pub mod Trust
pub mod Fencing
pub mod FailOpen
pub mod Unfailing
