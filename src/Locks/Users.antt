-- ===== src/Locks/Users.antt =====
-- What may happen to one lock of packages/locks/src/index.ts, and what is documented of its server.
use safecache.Base.{
  ℕ, ◌+◌, ◌≤◌, ◌≡◌, Bool, true, false, Option, none, some, List, [], ◌∷◌, ◌++◌, nat_has_eq,
  if◌then◌else◌,
}
use safecache.Text.{Text, codes}
use safecache.JsSet
use safecache.JsSet.{has-delete}
use safecache.Result.{Result, ok, throw}
use safecache.Cache.Types.{Error}
use safecache.Locks.{RedisLockClient, CacheLockHandle, is_token, acquire, renew, release}

abbrev pub is_free : Option Text → Bool
is_free none = true
is_free (some t) = false

-- The documented behaviour of the commands on one key: `held` is what is stored under it.
pub record IsLockServer {World : Type 0} (client : RedisLockClient World) (key : Text)
    (held : World → Option Text) : Type 0 where
  pub sets :
      (token : Text) (ttl_ms : ℕ) (w : World)
      → 1 ≤ ttl_ms
      → ((client.set key token ttl_ms w).0 ≡ ok (is_free (held w)))
        × (held (client.set key token ttl_ms w).1
            ≡ (if is_free (held w) then some token else held w))
  pub gets :
      (w : World) → ((client.get key w).0 ≡ ok (held w)) × (held (client.get key w).1 ≡ held w)
  pub deletes :
      (w : World)
      → ((client.del key w).0 ≡ ok (if is_free (held w) then 0 else 1))
        × (held (client.del key w).1 ≡ none)
  pub extends :
      (ttl_ms : ℕ) (w : World)
      → 1 ≤ ttl_ms
      → ((client.pexpire key ttl_ms w).0 ≡ ok (if is_free (held w) then 0 else 1))
        × (held (client.pexpire key ttl_ms w).1 ≡ held w)

-- `active` are the acquisitions that succeeded, that were not released, and whose lease has not run
-- out. Each has a number.
pub record Users (World : Type 0) : Type 0 where
  pub world : World
  pub next : ℕ
  pub active : List ℕ

unfoldable pub active_after : Result Error (Option CacheLockHandle) → ℕ → List ℕ → List ℕ
active_after (ok (some handle)) i active = i ∷ active
active_after (ok none) i active = active
active_after (throw e) i active = active

-- the acquisitions whose token is not the one that is stored
unfoldable pub without_holder : (ℕ → Text) → Option Text → List ℕ → List ℕ
without_holder token value [] = []
without_holder token value (i ∷ active) =
    if is_token value (token i)
    then without_holder token value active
    else i ∷ without_holder token value active

module _ {World : Type 0} (client : RedisLockClient World) (held : World → Option Text)
    (prefix key : Text) (token : ℕ → Text) where
  abbrev pub full_key : Text
  full_key = prefix ++ (codes ":" ++ key)

  abbrev pub handle_of : ℕ → CacheLockHandle
  handle_of i = record { lock_key = full_key; token = token i }

  -- An acquisition, a renewal, a release, a lease that runs out, or anything that leaves the key.
  pub data Step (s : Users World) : Users World → Type 0 where
    acquires :
        (ttl_ms : ℕ)
        → 1 ≤ ttl_ms
        → Step s (record {
          world = (acquire client prefix key (token s.next) ttl_ms s.world).1;
          next = s.next + 1;
          active =
              active_after
                (acquire client prefix key (token s.next) ttl_ms s.world).0
                s.next
                s.active;
        })
    renews :
        (i ttl_ms : ℕ)
        → 1 ≤ ttl_ms
        → Step s (record s { world = (renew client (handle_of i) ttl_ms s.world).1 })
    releases :
        (i : ℕ)
        → Step s (record s {
          world = (release client (handle_of i) s.world).1;
          active = JsSet.delete s.active i;
        })
    runs_out :
        (w : World)
        → held w ≡ none
        → Step s (record s { world = w; active = without_holder token (held s.world) s.active })
    passes : (w : World) → held w ≡ held s.world → Step s (record s { world = w })

  pub data Reachable : Users World → Type 0 where
    starts : (w : World) → held w ≡ none → Reachable (record { world = w; next = 0; active = [] })
    then_step : {s s' : Users World} → Reachable s → Step s s' → Reachable s'

  -- an acquisition is active exactly when its token is stored
  unfoldable pub IsExact : Users World → Type 0
  IsExact s = (i : ℕ) → JsSet.has s.active i ≡ is_token (held s.world) (token i)
