-- ===== src/Lib.antt =====
-- A verification library for SafeCache, a TypeScript caching library: its core (packages/core), its
-- providers over memory, Redis and Memcached (packages/memory, packages/redis,
-- packages/memcached), its locks (packages/locks), its metrics (packages/metrics), its event buses,
-- its integration of Prisma (packages/prisma), and the workers that turn the outbox table of
-- Postgres (packages/postgres-outbox) and the change streams of MongoDB (packages/mongodb-streams)
-- into invalidations.
--
-- The program. A cache serves `query` from its layers of providers, or fetches, and stores what it
-- fetched in every layer. Invalidations by key and by tag delete from the layers and are sent to
-- other processes over an event bus. Since all this runs concurrently, each invalidation stamps an
-- epoch on the scoped key, and a write that was overtaken by an invalidation is dropped or undone.
-- A circuit breaker guards the provider calls, single flight and a distributed lock keep callers
-- from fetching the same key at once.
--
-- The files.
--   Keys           packages/core/src/keys.ts: encodeComponent, scopeKey, scopeTag, scopePrefix;
--                  Keys/Decode reads an encoded component back, Keys/Scope tells keys apart.
--   Duration       packages/core/src/duration.ts: parseDuration; Duration/Grammar is the
--                  independent description of the texts it accepts.
--   CircuitBreaker packages/core/src/circuit-breaker.ts, an operation each; CircuitBreaker/Runs is
--                  about sequences of outcomes.
--   TagIndex       packages/core/src/tag-index.ts: InMemoryTagIndex. TagIndex/Relation has what a
--                  tag index promises, as a relation between tags and keys.
--   Memory         packages/memory/src/index.ts: memoryProvider and its MemoryTagIndex.
--   EventShape     packages/core/src/utils.ts: isCacheEvent and parseCacheEvent.
--   RuntimeEvents  packages/core/src/events.ts: the handlers of runtime events.
--   Plugins        packages/core/src/plugin.ts: PluginRegistry.
--   Metrics        packages/metrics/src/index.ts: the counters and histograms.
--   Cache          packages/core/src/cache.ts: the class SafeCache. Cache/Types has its options and
--                  its state (with packages/core/src/types.ts), Cache/Exec the actions on it that
--                  may throw, Cache/Epochs currentEpoch and bumpEpoch, Cache/Calls withTimeout,
--                  recordError and emit, Cache/Guarded the guarded provider, tag index and lock
--                  calls, Cache/Store readLayers, writeEntry and isStaleVersion, Cache/Fetch
--                  fetchAndStore and the distributed lock, Cache/Query query, backfill and the
--                  background refresh (with SingleFlight.run of packages/core/src/single-flight.ts),
--                  Cache/Setup normalizeLayers, wrap and stats,
--                  Cache/Invalidate mutate, the invalidations and the event handler,
--                  Cache/Distributed the signing, verification and memory of events.
--                  Cache/Fencing, Cache/FailOpen, Cache/Unfailing, Cache/Polling and Cache/Trust
--                  prove what these do together.
--   Redis          packages/redis/src/index.ts: redisProvider and RedisTagIndex. Redis/Steps has the
--                  sets of a server and what the commands do to them.
--   Locks          packages/locks/src/index.ts: redisLock and its scripts. Locks/Users has the users
--                  of one lock and what is documented of its server.
--   Memcached      packages/memcached/src/index.ts: memcachedProvider. Memcached/Stored has what is
--                  documented of its server.
--   Outbox         packages/postgres-outbox/src/index.ts. Outbox/Rows is the table, with a function
--                  for each statement, Outbox/Payload mapPostgresOutboxRow, Outbox/Database what a
--                  worker sends, Outbox/Worker poll with claimBatch and claimAndDispatch,
--                  Outbox/Loop the plugin with runTick.
--   ChangeStreams  packages/mongodb-streams/src/index.ts. ChangeStreams/Resumable
--                  isNonResumableChangeStreamError, ChangeStreams/Mapping
--                  mapMongoChangeToInvalidation, ChangeStreams/Watch startWatch, handleStreamError
--                  and shutdown for one collection, ChangeStreams/Change the handler of a change.
--   Buses          packages/pubsub, packages/kafka, packages/nats, packages/rabbitmq and
--                  packages/aws-events, each src/index.ts: publish and the listener of a
--                  subscription, a file for each bus.
--   Prisma         packages/prisma/src/index.ts: Prisma/Ids has inferPrismaMutationId and
--                  prismaModelTags, Prisma/Sync createPrismaCacheSync.
--   JsMap, JsSet   JavaScript's Map and Set, in insertion order. Text: strings as UTF-16 code units.
--   Tests          the theorems at concrete inputs.
--
-- How it is modelled. A method is an action: a function from the state to a result, or an error
-- that was thrown, and the next state. What was written before a throw stays written. The
-- providers, tag indexes, lock, bus, serializer, clock, HMAC and byte encoding are parameters, the
-- record `Env`: each call takes effect in a world and resolves or rejects. At each await a
-- parameter, any function of the state, stands for what the other tasks of the process do
-- meanwhile. Times, durations and versions are natural numbers. The databases, the Redis server and
-- its commands are parameters too, in records of their own (`OutboxEnv`, `StreamEnv`,
-- `RedisProviderClient`); what the servers document of their commands is in records
-- too (`IsServer`, `IsLockServer`).
--
-- Bounds and fuel. The map of epochs is bounded by 5000 entries; its laws hold for any bound. The
-- polling of a peer runs on one round more than the lock's TTL in milliseconds, which is enough
-- when a round of `delay(10)` moves the wall clock by a millisecond at least (`IsTicking`). A clock
-- that stands still ends the polling here with a miss. All other recursion is structural. The
-- delays are exact: a product of doubles is exact up to the safe integers, past these the upper
-- bound of a backoff is what counts, and the one that is NaN is written out.
--
-- Not modelled: the renewal timer of a held lock, the rest of the constructor and the shutdown of
-- the cache; a provider call that was abandoned by its timeout and lands later than the next await;
-- the expiry of the sets of a Redis server; the definition of the outbox table and its poll at the
-- start; the loop over the collections of MongoDB, their initial tokens and the closing of their
-- streams; the wiring and the closing of a subscription to an event bus. The other packages are
-- integrations with frameworks and Mongoose, serializers, a dashboard and a command line.
pub mod Base
pub mod Text
pub mod JsMap
pub mod JsSet
pub mod Keys
pub mod Result
pub mod Duration
pub mod CircuitBreaker
pub mod TagIndex
pub mod Memory
pub mod EventShape
pub mod RuntimeEvents
pub mod Metrics
pub mod Outbox
pub mod Redis
pub mod ChangeStreams
pub mod Locks
pub mod Plugins
pub mod Prisma
pub mod Memcached
pub mod Buses
pub mod Cache
pub mod Tests
