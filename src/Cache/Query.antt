-- ===== src/Cache/Query.antt =====
-- The public reads of packages/core/src/cache.ts: `query`, with its backfill, its background
-- refreshes and the single flight of packages/core/src/single-flight.ts.
use safecache.Base.{
  ℕ, zero, suc, ◌+◌, ◌-◌, ◌*◌, Bool, true, false, not, Option, none, some, List, [], ◌∷◌, leb,
  nat_eq, if◌then◌else◌, ◌++◌,
}
use safecache.Text.{Text, text_has_eq, codes}
use safecache.Result.{Result, ok, throw}
use safecache.JsMap
use safecache.JsSet
use safecache.Keys.{scope_key}
use safecache.CircuitBreaker.{or_default}
use safecache.Cache.Types.{
  Error, Fetched, CacheEntry, CacheLayer, CacheOptions, CacheState, Env, on_refresh, Switch, window,
  QueryOptions, RefreshJob, RuntimeEvent, refresh,
}
use safecache.Cache.Exec.{Exec, pure, lift, gets, attempt, modify, finally, ◌>>=◌, ◌>>◌}
use safecache.Cache.Calls.{duration_ms, emit, record_error, await, clock_now}
use safecache.Cache.Guarded.{safe_provider_write}
use safecache.Cache.Store.{ReadResult, hit, stale, miss, set_switch, epoch_of, read_layers}
use safecache.Cache.Fetch.{
  resolve_ttl, can_serve_stale, fetch_and_store, fetch_and_store_with_distributed_lock,
}

module _ {World Raw V : Type 0} (env : Env World Raw V) (options : CacheOptions) where
  -- the loop of `backfill` over the layers above the one that was hit
  unfoldable pub backfill_layers :
      ℕ
      → List CacheLayer
      → Text
      → Raw
      → ℕ
      → Text
      → Option Text
      → Exec (CacheState World V) (Unit {0})
  backfill_layers zero layers scoped_key raw ttl_ms key tenant = pure tt
  backfill_layers (suc n) [] scoped_key raw ttl_ms key tenant = pure tt
  backfill_layers (suc n) (layer ∷ layers) scoped_key raw ttl_ms key tenant = do
    safe_provider_write env options layer scoped_key raw ttl_ms (some key) tenant
    backfill_layers n layers scoped_key raw ttl_ms key tenant

  -- past the check of the time left: the fence, and the serializer, which is not guarded
  unfoldable pub backfill_fenced :
      CacheEntry V → ℕ → ℕ → Text → ℕ → Text → Option Text → Exec (CacheState World V) (Unit {0})
  backfill_fenced entry index ttl_ms scoped_key epoch key tenant = do
    current ← epoch_of env options scoped_key
    if not (nat_eq current epoch) then pure tt else do
      raw ← lift (env.serialize entry)
      backfill_layers index options.layers scoped_key raw ttl_ms key tenant

  unfoldable pub backfill :
      CacheEntry V → ℕ → Text → ℕ → Text → Option Text → Exec (CacheState World V) (Unit {0})
  backfill entry zero scoped_key epoch key tenant = pure tt
  backfill entry (suc index) scoped_key epoch key tenant = do
    now ← clock_now env
    if nat_eq (entry.expires_at - now) 0
        then pure tt
        else backfill_fenced entry (suc index) (entry.expires_at - now) scoped_key epoch key tenant

  -- `singleFlight.run("refresh:" + key, …)`: a job is started unless one is in flight
  unfoldable pub refresh_in_background :
      QueryOptions World V → Text → ℕ → Exec (CacheState World V) (Unit {0})
  refresh_in_background query scoped_key ttl_ms = modify (λ s.
      if JsMap.has s.background (codes "refresh:" ++ scoped_key) then s else record s {
        background =
            JsMap.set s.background (codes "refresh:" ++ scoped_key)
              (record { query = query; scoped_key = scoped_key; ttl_ms = ttl_ms });
      })

  unfoldable pub refresh_task : RefreshJob World V → Exec (CacheState World V) (Unit {0})
  refresh_task job = do
    fetched ← fetch_and_store env options job.query job.scoped_key job.ttl_ms
    modify (λ s. record s { stats = record s.stats { refreshes = s.stats.refreshes + 1 } })
    emit (refresh job.query.key job.query.tenant)

  -- the `catch` behind a refresh
  unfoldable pub settle_refresh :
      QueryOptions World V → Result Error (Unit {0}) → Exec (CacheState World V) (Unit {0})
  settle_refresh query (ok _) = pure tt
  settle_refresh query (throw e) = record_error on_refresh e (some query.key) query.tenant

  unfoldable pub run_refresh : RefreshJob World V → Exec (CacheState World V) (Unit {0})
  run_refresh job = do
    settled ← attempt (refresh_task job)
    modify (λ s. record s {
      background = JsMap.delete s.background (codes "refresh:" ++ job.scoped_key);
    })
    settle_refresh job.query settled

  -- twice the threshold, which without a duration is half the TTL
  unfoldable pub refresh_threshold : Option Switch → ℕ → Exec (CacheState World V) ℕ
  refresh_threshold (some (window d)) ttl_ms = do
    ms ← duration_ms d (codes "duration")
    pure (2 * ms)
  refresh_threshold _ ttl_ms = pure ttl_ms

  abbrev pub wants_refresh_ahead : QueryOptions World V → Bool
  wants_refresh_ahead query = elim (set_switch query.refresh_ahead) [
    | none ↦ or_default options.refresh_ahead false
    | some _ ↦ true
  ]

  unfoldable pub refresh_ahead_if_needed :
      QueryOptions World V → Text → CacheEntry V → ℕ → Exec (CacheState World V) (Unit {0})
  refresh_ahead_if_needed query scoped_key entry ttl_ms =
      if wants_refresh_ahead query
      then (do
        now ← clock_now env
        threshold ← refresh_threshold query.refresh_ahead ttl_ms
        if leb (2 * entry.expires_at) (threshold + 2 * now)
            then refresh_in_background query scoped_key ttl_ms
            else pure tt)
      else pure tt

  -- `SingleFlight.run`: join the call in flight, or run the task and clear the slot behind it
  unfoldable pub single_flight :
      Text → Exec (CacheState World V) (Fetched V) → Exec (CacheState World V) (Fetched V)
  single_flight key task = do
    existing ← gets (λ s. JsSet.has s.in_flight key)
    if existing then await env (env.joined key) else do
      modify (λ s. record s { in_flight = JsSet.add s.in_flight key })
      finally task (modify (λ s. record s { in_flight = JsSet.delete s.in_flight key }))

  unfoldable pub serve_hit :
      QueryOptions World V → Text → ℕ → ℕ → CacheEntry V → ℕ → Exec (CacheState World V) (Fetched V)
  serve_hit query scoped_key ttl_ms epoch entry index = do
    modify (λ s. record s { stats = record s.stats { hits = s.stats.hits + 1 } })
    emit (RuntimeEvent.hit query.key query.tenant)
    backfill entry index scoped_key epoch query.key query.tenant
    refresh_ahead_if_needed query scoped_key entry ttl_ms
    pure entry.content

  unfoldable pub serve_stale :
      QueryOptions World V → Text → ℕ → CacheEntry V → Exec (CacheState World V) (Fetched V)
  serve_stale query scoped_key ttl_ms entry = do
    modify (λ s. record s { stats = record s.stats { stale_served = s.stats.stale_served + 1 } })
    emit (RuntimeEvent.stale query.key query.tenant)
    refresh_in_background query scoped_key ttl_ms
    pure entry.content

  unfoldable pub load_missing :
      QueryOptions World V → Text → ℕ → Exec (CacheState World V) (Fetched V)
  load_missing query scoped_key ttl_ms = do
    modify (λ s. record s { stats = record s.stats { misses = s.stats.misses + 1 } })
    emit (RuntimeEvent.miss query.key query.tenant)
    if or_default options.prevent_stampede true
        then single_flight scoped_key
            (fetch_and_store_with_distributed_lock env options query scoped_key ttl_ms)
        else fetch_and_store_with_distributed_lock env options query scoped_key ttl_ms

  unfoldable pub respond :
      QueryOptions World V → Text → ℕ → ℕ → ReadResult V → Exec (CacheState World V) (Fetched V)
  respond query scoped_key ttl_ms epoch (hit entry index) =
      serve_hit query scoped_key ttl_ms epoch entry index
  respond query scoped_key ttl_ms epoch (stale entry index) =
      if can_serve_stale options query
      then serve_stale query scoped_key ttl_ms entry
      else load_missing query scoped_key ttl_ms
  respond query scoped_key ttl_ms epoch miss = load_missing query scoped_key ttl_ms

  unfoldable pub query : QueryOptions World V → Exec (CacheState World V) (Fetched V)
  query q = do
    ttl_ms ← resolve_ttl options q
    let scoped_key = scope_key options.namespace q.key q.tenant
    epoch ← epoch_of env options scoped_key
    read ← read_layers env options q scoped_key
    respond q scoped_key ttl_ms epoch read
