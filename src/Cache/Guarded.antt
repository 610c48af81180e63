-- ===== src/Cache/Guarded.antt =====
-- The guarded calls of packages/core/src/cache.ts: `safeProviderRead`, `safeProviderWrite`,
-- `deleteScopedKey`, the tag index calls and `releaseLock`.
use safecache.Base.{ℕ, Option, none, some, List, [], ◌∷◌, if◌then◌else◌}
use safecache.Text.{Text}
use safecache.Result.{Result, ok, throw}
use safecache.CircuitBreaker.{or_default}
use safecache.Cache.Types.{
  Error, CacheLayer, CacheOptions, CacheState, Env, Operation, on_get, on_set, on_delete,
  on_tag_index, on_release, ProviderOp, QueryOptions,
}
use safecache.Cache.Exec.{Exec, pure, attempt, finally, ◌>>=◌, ◌>>◌}
use safecache.Cache.Calls.{
  record_error, rethrow_unless_open, await, pause, clock_now, breaker_open, breaker_failure,
  breaker_success, with_timeout, emit_latency,
}

-- `query.timeout ?? options.safety?.timeout`, as a default parameter fills it in
abbrev pub either {ℓ} : {A : Type ℓ} → Option A → Option A → Option A
either none b = b
either (some a) b = some a

module _ {World Raw V : Type 0} (env : Env World Raw V) (options : CacheOptions) where
  -- the `try` and the `catch` of `safeProviderRead`
  unfoldable pub settle_read :
      QueryOptions World V → Result Error (Option Raw) → Exec (CacheState World V) (Option Raw)
  settle_read query (ok found) = do breaker_success env; pure found
  settle_read query (throw e) = do
    breaker_failure env
    record_error on_get e (some query.key) query.tenant
    rethrow_unless_open options e none

  unfoldable pub safe_provider_read :
      CacheLayer → Text → QueryOptions World V → Exec (CacheState World V) (Option Raw)
  safe_provider_read layer scoped_key query = do
    start ← clock_now env
    called ← attempt (
        with_timeout env (either query.timeout options.timeout)
          (env.provider_get layer.provider scoped_key))
    finally (settle_read query called)
        (emit_latency env layer ProviderOp.get start query.key query.tenant)

  unfoldable pub settle_write :
      Text → Option Text → Result Error (Unit {0}) → Exec (CacheState World V) (Unit {0})
  settle_write key tenant (ok _) = pure tt
  settle_write key tenant (throw e) = do
    breaker_failure env
    record_error on_set e (some key) tenant
    rethrow_unless_open options e tt

  unfoldable pub guarded_write :
      CacheLayer → Text → Raw → ℕ → Text → Option Text → Exec (CacheState World V) (Unit {0})
  guarded_write layer scoped_key raw ttl_ms key tenant = do
    start ← clock_now env
    called ←
        attempt
          (with_timeout env options.timeout (env.provider_set layer.provider scoped_key raw ttl_ms))
    finally (settle_write key tenant called)
        (emit_latency env layer ProviderOp.set start key tenant)

  -- nothing is written while the breaker is open
  unfoldable pub safe_provider_write :
      CacheLayer → Text → Raw → ℕ → Option Text → Option Text → Exec (CacheState World V) (Unit {0})
  safe_provider_write layer scoped_key raw ttl_ms logical_key tenant = do
    is_open ← breaker_open env
    if is_open
        then pause env
        else guarded_write layer scoped_key raw ttl_ms (or_default logical_key scoped_key) tenant

  unfoldable pub settle_delete :
      Text → Option Text → Result Error (Unit {0}) → Exec (CacheState World V) (Unit {0})
  settle_delete key tenant (ok _) = pure tt
  settle_delete key tenant (throw e) = record_error on_delete e (some key) tenant

  unfoldable pub delete_layer :
      CacheLayer → Text → Text → Option Text → Exec (CacheState World V) (Unit {0})
  delete_layer layer scoped_key key tenant = do
    start ← clock_now env
    called ←
        attempt (with_timeout env options.timeout (env.provider_delete layer.provider scoped_key))
    settle_delete key tenant called
    emit_latency env layer ProviderOp.delete start key tenant

  unfoldable pub delete_from :
      Text → Text → Option Text → List CacheLayer → Exec (CacheState World V) (Unit {0})
  delete_from scoped_key key tenant [] = pure tt
  delete_from scoped_key key tenant (layer ∷ layers) = do
    delete_layer layer scoped_key key tenant
    delete_from scoped_key key tenant layers

  unfoldable pub delete_scoped_key :
      Text → Option Text → Option Text → Exec (CacheState World V) (Unit {0})
  delete_scoped_key scoped_key logical_key tenant =
      delete_from scoped_key (or_default logical_key scoped_key) tenant options.layers

  -- `layer.tagIndex?.…` of a layer with no index is `undefined`
  unfoldable pub read_or_empty : Result Error (List Text) → Exec (CacheState World V) (List Text)
  read_or_empty (ok keys) = pure keys
  read_or_empty (throw e) = do record_error on_tag_index e none none; pure []

  unfoldable pub safe_tag_index_read :
      Option ℕ
      → (ℕ → World → Result Error (List Text) × World)
      → Exec (CacheState World V) (List Text)
  safe_tag_index_read none task = do pause env; pure []
  safe_tag_index_read (some index) task = do
    keys ← attempt (await env (task index))
    read_or_empty keys

  unfoldable pub done_or_recorded :
      Operation → Result Error (Unit {0}) → Exec (CacheState World V) (Unit {0})
  done_or_recorded operation (ok _) = pure tt
  done_or_recorded operation (throw e) = record_error operation e none none

  unfoldable pub safe_tag_index_operation :
      Operation
      → Option ℕ
      → (ℕ → World → Result Error (Unit {0}) × World)
      → Exec (CacheState World V) (Unit {0})
  safe_tag_index_operation operation none task = pause env
  safe_tag_index_operation operation (some index) task = do
    done ← attempt (await env (task index))
    done_or_recorded operation done

  unfoldable pub settle_release :
      QueryOptions World V → Result Error (Unit {0}) → Exec (CacheState World V) (Unit {0})
  settle_release query (ok _) = pure tt
  settle_release query (throw e) = do
    record_error on_release e (some query.key) query.tenant
    rethrow_unless_open options e tt

  unfoldable pub release_lock : ℕ → QueryOptions World V → Exec (CacheState World V) (Unit {0})
  release_lock handle query = do
    released ← attempt (await env (env.release handle))
    settle_release query released
