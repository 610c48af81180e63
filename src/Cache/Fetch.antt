-- ===== src/Cache/Fetch.antt =====
-- Fetching from the origin in packages/core/src/cache.ts: `fetchAndStore`, and
-- `fetchAndStoreWithDistributedLock` with its waiting for a peer. The renewal timer of a held lock
-- runs as another task.
use safecache.Base.{
  ℕ, zero, suc, ◌+◌, ◌-◌, Bool, true, false, ◌&&◌, Option, none, some, [], ltb, if◌then◌else◌, max,
}
use safecache.Text.{Text, text_has_eq, codes}
use safecache.Result.{Result, ok, throw}
use safecache.CircuitBreaker.{or_default}
use safecache.Cache.Types.{
  Error, missing_ttl, Fetched, undefined, null, value, CacheVersion, ConsistencyLevel, strict,
  CacheOptions, CacheState, Env, on_lock, Switch, lock_wait, flag, window, VersionSource,
  unversioned, fixed, computed, QueryOptions,
}
use safecache.Cache.Exec.{Exec, pure, raise, update, attempt, finally, ◌>>=◌, ◌>>◌}
use safecache.Cache.Calls.{
  set_duration, duration_ms, emit, record_error, rethrow_unless_open, await, clock_now,
  with_timeout,
}
use safecache.Cache.Guarded.{either, release_lock}
use safecache.Cache.Store.{
  ReadResult, hit, stale, miss, set_switch, epoch_of, read_layers, write_entry,
}

abbrev pub default_lock_ttl_ms : ℕ
default_lock_ttl_ms = 30000

abbrev pub lock_poll_interval_ms : ℕ
lock_poll_interval_ms = 10

abbrev pub is_strict : Option ConsistencyLevel → Bool
is_strict (some strict) = true
is_strict _ = false

-- `Boolean(query.staleWhileRevalidate ?? options.safety?.staleWhileRevalidate)`
abbrev pub serves_stale : Option Switch → Option Bool → Bool
serves_stale none setting = or_default setting false
serves_stale (some s) setting = elim (set_switch (some s)) [ none ↦ false | some _ ↦ true ]

module _ {World V : Type 0} (options : CacheOptions) where
  unfoldable pub resolve_ttl : QueryOptions World V → Exec (CacheState World V) ℕ
  resolve_ttl query = elim (either query.ttl options.default_ttl) [
    | none ↦ raise missing_ttl
    | some ttl ↦ duration_ms ttl (codes "ttl")
  ]

  unfoldable pub resolve_lock_ttl : Exec (CacheState World V) ℕ
  resolve_lock_ttl = elim (set_duration options.lock_ttl) [
    | none ↦ pure default_lock_ttl_ms
    | some ttl ↦ duration_ms ttl (codes "lockTtl")
  ]

  unfoldable pub can_serve_stale : QueryOptions World V → Bool
  can_serve_stale query =
      if is_strict options.consistency
      then false
      else serves_stale query.stale_while_revalidate options.stale_while_revalidate

  -- a result that may be returned without a fetch
  unfoldable pub servable : QueryOptions World V → ReadResult V → Option (Fetched V)
  servable query (hit entry _) = some entry.content
  servable query (stale entry _) = if can_serve_stale query then some entry.content else none
  servable query miss = none

module _ {World Raw V : Type 0} (env : Env World Raw V) (options : CacheOptions) where
  unfoldable pub stale_until_from : Switch → ℕ → Exec (CacheState World V) (Option ℕ)
  stale_until_from (flag _) ttl_ms = do now ← clock_now env; pure (some (now + ttl_ms + ttl_ms))
  stale_until_from (window d) ttl_ms = do
    stale_ms ← duration_ms d (codes "staleWhileRevalidate")
    now ← clock_now env
    pure (some (now + ttl_ms + stale_ms))

  unfoldable pub resolve_stale_until :
      QueryOptions World V → ℕ → Exec (CacheState World V) (Option ℕ)
  resolve_stale_until query ttl_ms = elim (set_switch query.stale_while_revalidate) [
    | none ↦ pure none
    | some s ↦ stale_until_from s ttl_ms
  ]

  unfoldable pub resolve_physical_ttl : ℕ → ℕ → Option ℕ → ℕ
  resolve_physical_ttl now ttl_ms none = ttl_ms
  resolve_physical_ttl now ttl_ms (some until) = max ttl_ms (until - now)

  unfoldable pub resolve_version :
      VersionSource World V → Fetched V → Exec (CacheState World V) (Option CacheVersion)
  resolve_version unversioned content = pure none
  resolve_version (fixed v) content = pure (some v)
  resolve_version (computed f) content = do v ← await env (f content); pure (some v)

  -- `undefined` is never stored, and `null` only on request
  unfoldable pub is_storable : QueryOptions World V → Fetched V → Bool
  is_storable query undefined = false
  is_storable query null = query.cache_null
  is_storable query (value v) = true

  unfoldable pub store_fetched :
      QueryOptions World V → Text → ℕ → ℕ → Fetched V → Exec (CacheState World V) (Unit {0})
  store_fetched query scoped_key ttl_ms epoch_at_start content = do
    version ← resolve_version query.version content
    now ← clock_now env
    stale_until ← resolve_stale_until query ttl_ms
    write_entry env options scoped_key
        (record {
          content = content;
          tags = or_default query.tags [];
          created_at = now;
          expires_at = now + ttl_ms;
          stale_until = stale_until;
          version = version;
        })
        (resolve_physical_ttl now ttl_ms stale_until) query.tenant epoch_at_start (some query.key)

  unfoldable pub fetch_and_store :
      QueryOptions World V → Text → ℕ → Exec (CacheState World V) (Fetched V)
  fetch_and_store query scoped_key ttl_ms = do
    epoch_at_start ← epoch_of env options scoped_key
    content ← await env query.fetcher
    if is_storable query content
        then (do store_fetched query scoped_key ttl_ms epoch_at_start content; pure content)
        else pure content

  -- `Date.now()`
  unfoldable pub wall_now : Exec (CacheState World V) ℕ
  wall_now = update (λ s. let (t, w) = env.date_now s.world in (t, record s { world = w }))

  -- `await delay(LOCK_POLL_INTERVAL_MS)`
  unfoldable pub sleep : Exec (CacheState World V) (Unit {0})
  sleep = await env (λ w. (ok tt, env.delay lock_poll_interval_ms w))

  -- `while (Date.now() < deadline)`, with the rounds that are left
  unfoldable pub poll_peer :
      ℕ → ℕ → QueryOptions World V → Text → Exec (CacheState World V) (Option (Fetched V))
  poll_peer zero deadline query scoped_key = pure none
  poll_peer (suc rounds) deadline query scoped_key = do
    now ← wall_now
    if ltb now deadline
        then (do
          sleep
          read ← read_layers env options query scoped_key
          elim (servable options query read) [
            | some content ↦ pure (some content)
            | none ↦ poll_peer rounds deadline query scoped_key
          ])
        else pure none

  unfoldable pub wait_for_peer_refresh :
      QueryOptions World V → Text → Exec (CacheState World V) (Option (Fetched V))
  wait_for_peer_refresh query scoped_key = do
    start ← wall_now
    lock_ttl ← resolve_lock_ttl options
    poll_peer (suc lock_ttl) (start + lock_ttl) query scoped_key

  unfoldable pub fetch_unless :
      Option (Fetched V) → QueryOptions World V → Text → ℕ → Exec (CacheState World V) (Fetched V)
  fetch_unless (some content) query scoped_key ttl_ms = pure content
  fetch_unless none query scoped_key ttl_ms = fetch_and_store query scoped_key ttl_ms

  -- with the lock held: check the layers again, then fetch
  unfoldable pub fetch_holding :
      QueryOptions World V → Text → ℕ → Exec (CacheState World V) (Fetched V)
  fetch_holding query scoped_key ttl_ms = do
    recheck ← read_layers env options query scoped_key
    fetch_unless (servable options query recheck) query scoped_key ttl_ms

  unfoldable pub after_acquire :
      Result Error (Option ℕ)
      → QueryOptions World V
      → Text
      → ℕ
      → Exec (CacheState World V) (Fetched V)
  after_acquire (throw e) query scoped_key ttl_ms = fetch_and_store query scoped_key ttl_ms
  after_acquire (ok none) query scoped_key ttl_ms = do
    peer ← wait_for_peer_refresh query scoped_key
    fetch_unless peer query scoped_key ttl_ms
  after_acquire (ok (some handle)) query scoped_key ttl_ms =
      finally (fetch_holding query scoped_key ttl_ms) (release_lock env options handle query)

  -- the `catch` of the acquisition
  unfoldable pub settle_acquire :
      QueryOptions World V
      → Result Error (Option ℕ)
      → Exec (CacheState World V) (Result Error (Option ℕ))
  settle_acquire query (ok handle) = pure (ok handle)
  settle_acquire query (throw e) = do
    record_error on_lock e (some query.key) query.tenant
    rethrow_unless_open options e (throw e)

  unfoldable pub emit_lock_wait : QueryOptions World V → ℕ → Exec (CacheState World V) (Unit {0})
  emit_lock_wait query start = do
    now ← clock_now env
    emit (lock_wait query.key (now - start) query.tenant)

  unfoldable pub acquire_lock :
      QueryOptions World V → Text → ℕ → Exec (CacheState World V) (Result Error (Option ℕ))
  acquire_lock query scoped_key lock_ttl = do
    start ← clock_now env
    called ←
        attempt (
          with_timeout env (either query.timeout options.timeout) (env.acquire scoped_key lock_ttl))
    finally (settle_acquire query called) (emit_lock_wait query start)

  -- `query.lock ?? Boolean(lock)`, and a lock is configured
  abbrev pub uses_lock : QueryOptions World V → Bool
  uses_lock query = or_default query.lock options.has_lock && options.has_lock

  unfoldable pub fetch_and_store_with_distributed_lock :
      QueryOptions World V → Text → ℕ → Exec (CacheState World V) (Fetched V)
  fetch_and_store_with_distributed_lock query scoped_key ttl_ms =
      if uses_lock query
      then (do
        lock_ttl ← resolve_lock_ttl options
        acquired ← acquire_lock query scoped_key lock_ttl
        after_acquire acquired query scoped_key ttl_ms)
      else fetch_and_store query scoped_key ttl_ms
