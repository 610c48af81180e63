-- ===== src/Outbox.antt =====
-- packages/postgres-outbox/src/index.ts: a table of invalidations that workers claim and deliver to
-- a cache.
pub mod Rows
pub mod Payload
pub mod Database
pub mod Worker
pub mod Loop
pub mod Lease
pub mod Poison
pub mod Delivery
pub mod Count
