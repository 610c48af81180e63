-- ===== src/Prisma.antt =====
-- packages/prisma/src/index.ts: invalidation behind the mutations of Prisma.
pub mod Ids
pub mod Sync
pub mod Asks
pub mod Mutation
