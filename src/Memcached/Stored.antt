-- ===== src/Memcached/Stored.antt =====
-- What packages/memcached/src/index.ts reads of what it stored.
use safecache.Base.{ℕ, ◌+◌, ◌/◌, ◌≡◌, ltb, leb, max, Option, none, some, if◌then◌else◌}
use safecache.Text.{Text}
use safecache.Result.{ok}
use safecache.Memcached.{MemcachedEnv, relative_ttl_max_seconds, get, set}

-- An expiry of at most 30 days is relative, and a later one is a time, both in seconds.
abbrev pub deadline : ℕ → ℕ → ℕ
deadline now expiry = if leb expiry relative_ttl_max_seconds then now / 1000 + expiry else expiry

abbrev pub alive : ℕ → Option (Text × ℕ) → Option Text
alive now none = none
alive now (some (t, until)) = if ltb (now / 1000) until then some t else none

-- The documented behaviour of a server that answers, in milliseconds: `time` is the clock of the
-- process, `served` that of the server, and `held` are the texts with their deadlines.
pub record IsServer {World Bytes : Type 0} (env : MemcachedEnv World Bytes)
    (time served : World → ℕ) (held : World → Text → Option (Text × ℕ)) : Type 0 where
  pub tells : (w : World) → env.date_now w ≡ (time w, w)
  pub sets :
      (key t : Text) (expiry : ℕ) (w : World)
      → ((env.set key t expiry w).0 ≡ ok tt)
        × (held (env.set key t expiry w).1 key ≡ some (t, deadline (served w) expiry))
  pub gets : (key : Text) (w : World) → (env.get key w).0 ≡ ok (alive (served w) (held w key))
  pub decodes : (b : Bytes) → env.from_base64 (env.to_base64 b) ≡ b

abbrev pub seconds_for : ℕ → ℕ
seconds_for ttl_ms = max 1 ((ttl_ms + 999) / 1000)

module _ {World Bytes : Type 0} (env : MemcachedEnv World Bytes) (time served : World → ℕ)
    (held : World → Text → Option (Text × ℕ)) (server : IsServer env time served held) where
  -- The second from which on a text that is stored now is gone: the provider sends an expiry of more
  -- than 30 days as a time, by its own clock, and the server counts any other from its own.
  unfoldable pub gone_at : ℕ → World → ℕ
  gone_at ttl_ms w =
      (if ltb relative_ttl_max_seconds (seconds_for ttl_ms) then time w else served w) / 1000
      + seconds_for ttl_ms
