-- ===== src/ChangeStreams.antt =====
-- packages/mongodb-streams/src/index.ts: invalidation from the change streams of MongoDB.
pub mod Resumable
pub mod Mapping
pub mod Watch
pub mod Change
