-- ===== src/Tests/Memcaching.antt =====
-- A server with a clock that is a second ahead, and the theorem on the Memcached provider applied to it.
use safecache.Base.{ℕ, ◌+◌, Option, none, some, []}
use safecache.Text.{Text, codes}
use safecache.Result.{ok}
use safecache.Memcached.{binary, MemcachedEnv, MemcachedState, get, set}
use safecache.Memcached.Stored.{deadline, alive}

-- the time, and what is stored
abbrev Shelf : Type 0
Shelf = ℕ × Option (Text × ℕ)

abbrev shelf : MemcachedEnv Shelf Text
shelf = record {
  to_base64 = λ b. b;
  from_base64 = λ t. t;
  date_now = λ w. (w.0, w);
  get = λ key w. (ok (alive (w.0 + 1000) w.1), w);
  set = λ key t expiry w. (ok tt, (w.0, some (t, deadline (w.0 + 1000) expiry)));
  delete = λ key w. (ok tt, (w.0, none));
  flush = none;
  version = none;
}

abbrev empty : MemcachedState Shelf
empty = record { world = (5000, none); reported = [] }

-- Three seconds later.
abbrev stored_then : MemcachedState Shelf
stored_then = record {
  world = (8000, (set shelf (codes "k") (binary (codes "bytes")) 60000 empty).1.world.1);
  reported = [];
}
