-- ===== src/ChangeStreams/Watch/Resume.antt =====
-- Where a stream of packages/mongodb-streams/src/index.ts goes on after an error.
use safecache.Result.{Result}
