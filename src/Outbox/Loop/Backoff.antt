-- ===== src/Outbox/Loop/Backoff.antt =====
-- The delays of the poll loop.
