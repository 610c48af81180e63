-- ===== src/Locks.antt =====
-- packages/locks/src/index.ts: redisLock. The commands of the server are parameters, also those
-- that the two scripts call; a server runs a script without anything in between.
pub mod Users
pub mod Exclusion
use safecache.Base.{ℕ, Bool, true, false, Option, none, some, ◌∷◌, ◌++◌, nat_eq, if◌then◌else◌}
use safecache.Text.{Text, codes, text_eq}
use safecache.Cache.Exec.{Exec, pure, ◌>>=◌, ◌>>◌}

-- `set` with NX and PX says whether the answer is OK; `has_eval` whether the client has `eval`.
pub record RedisLockClient (World : Type 0) : Type 0 where
  pub set : Text → Text → ℕ → Exec World Bool
  pub get : Text → Exec World (Option Text)
  pub del : Text → Exec World ℕ
  pub pexpire : Text → ℕ → Exec World ℕ
  pub has_eval : Bool

pub record CacheLockHandle : Type 0 where
  pub lock_key : Text
  pub token : Text

-- `redis.call("get", KEYS[1]) == ARGV[1]`
unfoldable pub is_token : Option Text → Text → Bool
is_token none token = false
is_token (some value) token = text_eq value token

module _ {World : Type 0} (client : RedisLockClient World) where
  unfoldable pub release_script : Text → Text → Exec World ℕ
  release_script key token = do
    value ← client.get key
    if is_token value token then client.del key else pure 0

  unfoldable pub renew_script : Text → Text → ℕ → Exec World ℕ
  renew_script key token ttl_ms = do
    value ← client.get key
    if is_token value token then client.pexpire key ttl_ms else pure 0

  unfoldable pub acquire : Text → Text → Text → ℕ → Exec World (Option CacheLockHandle)
  acquire prefix key token ttl_ms = do
    is_set ← client.set (prefix ++ (codes ":" ++ key)) token ttl_ms
    pure (
        if is_set
        then some (record { lock_key = prefix ++ (codes ":" ++ key); token = token })
        else none)

  unfoldable pub renew : CacheLockHandle → ℕ → Exec World Bool
  renew handle ttl_ms =
      if client.has_eval
      then (do renewed ← renew_script handle.lock_key handle.token ttl_ms; pure (nat_eq renewed 1))
      else pure false

  unfoldable pub release : CacheLockHandle → Exec World (Unit {0})
  release handle =
      if client.has_eval
      then (do released ← release_script handle.lock_key handle.token; pure tt)
      else pure tt
