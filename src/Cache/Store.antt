-- ===== src/Cache/Store.antt =====
-- Reading and writing entries in packages/core/src/cache.ts: `readLayers`, `fetchAndStore`,
-- `writeEntry`, `isStaleVersion`, `backfill` and what resolves their options.
use safecache.Base.{
  ℕ, ◌+◌, Bool, true, false, not, Option, none, some, List, [], ◌∷◌, ltb, nat_eq, if◌then◌else◌,
}
use safecache.Text.{Text, text_has_eq}
use safecache.Result.{Result, ok, throw}
use safecache.Keys.{scope_prefix}
use safecache.CircuitBreaker.{or_default}
use safecache.Cache.Epochs.{current_epoch, bump_epoch, max_invalidation_epochs}
use safecache.Cache.Types.{
  Error, CacheVersion, num, str, CacheEntry, CacheLayer, CacheOptions, CacheState, Env,
  on_deserialize, on_serialize, on_add_tags, Switch, flag, window, QueryOptions,
}
use safecache.Cache.Exec.{Exec, pure, gets, attempt, modify, ◌>>=◌, ◌>>◌}
use safecache.Cache.Calls.{
  set_duration, record_error, rethrow_unless_open, await, pause, clock_now, breaker_open,
}
use safecache.Cache.Guarded.{
  safe_provider_read, safe_provider_write, delete_scoped_key, safe_tag_index_operation,
}

pub data ReadResult (V : Type 0) : Type 0 where
  hit stale : CacheEntry V → ℕ → ReadResult V
  miss : ReadResult V

-- The classification of an entry at a time: fresh, within its stale window, or neither.
unfoldable pub classify : {V : Type 0} → CacheEntry V → ℕ → ℕ → ReadResult V
classify entry layer now =
    if ltb now entry.expires_at then hit entry layer else elim entry.stale_until [
      | none ↦ miss
      | some until ↦ if ltb now until then stale entry layer else miss
    ]

-- `value` when a switch that may hold a duration is truthy
unfoldable pub set_switch : Option Switch → Option Switch
set_switch none = none
set_switch (some (flag b)) = if b then some (flag true) else none
set_switch (some (window d)) = elim (set_duration (some d)) [
  | none ↦ none
  | some d' ↦ some (window d')
]

module _ {World Raw V : Type 0} (env : Env World Raw V) (options : CacheOptions) where
  -- `compareVersions(next, current) < 0`
  unfoldable pub precedes : CacheVersion → Option CacheVersion → Bool
  precedes next none = false
  precedes (num a) (some (num b)) = ltb a b
  precedes (num a) (some (str t)) = env.locale_precedes (env.number_text a) t
  precedes (str s) (some (num b)) = env.locale_precedes s (env.number_text b)
  precedes (str s) (some (str t)) = env.locale_precedes s t

  unfoldable pub epoch_of : Text → Exec (CacheState World V) ℕ
  epoch_of scoped_key = gets (λ s. current_epoch s.epochs scoped_key)

  unfoldable pub bump : Text → Exec (CacheState World V) (Unit {0})
  bump scoped_key =
      modify (λ s. record s { epochs = bump_epoch max_invalidation_epochs scoped_key s.epochs })

  -- the `try` and the `catch` round the deserialization of what a layer holds
  unfoldable pub settle_raw :
      QueryOptions World V
      → ℕ
      → Result Error (CacheEntry V)
      → Exec (CacheState World V) (ReadResult V)
  settle_raw query index (ok entry) = do now ← clock_now env; pure (classify entry index now)
  settle_raw query index (throw e) = do
    record_error on_deserialize e (some query.key) query.tenant
    rethrow_unless_open options e miss

  unfoldable pub classify_found :
      QueryOptions World V → ℕ → Option Raw → Exec (CacheState World V) (ReadResult V)
  classify_found query index none = pure miss
  classify_found query index (some raw) = settle_raw query index (env.deserialize raw)

  unfoldable pub or_next :
      ReadResult V
      → Exec (CacheState World V) (ReadResult V)
      → Exec (CacheState World V) (ReadResult V)
  or_next (hit entry index) next = pure (hit entry index)
  or_next (stale entry index) next = pure (stale entry index)
  or_next miss next = next

  unfoldable pub read_from :
      QueryOptions World V → Text → ℕ → List CacheLayer → Exec (CacheState World V) (ReadResult V)
  read_from query scoped_key index [] = pure miss
  read_from query scoped_key index (layer ∷ layers) = do
    found ← safe_provider_read env options layer scoped_key query
    read ← classify_found query index found
    or_next read (read_from query scoped_key (index + 1) layers)

  unfoldable pub read_layers :
      QueryOptions World V → Text → Exec (CacheState World V) (ReadResult V)
  read_layers query scoped_key = do
    is_open ← breaker_open env
    if is_open then (do pause env; pure miss) else read_from query scoped_key 0 options.layers

  -- what the provider holds now, if it can be read: every failure is ignored
  unfoldable pub version_held : Result Error (Option Raw) → Option (Option CacheVersion)
  version_held (throw e) = none
  version_held (ok none) = none
  version_held (ok (some raw)) = elim (env.deserialize raw) [
    | ok entry ↦ some entry.version
    | throw e ↦ none
  ]

  unfoldable pub compare_held : CacheLayer → Text → CacheVersion → Exec (CacheState World V) Bool
  compare_held layer scoped_key next = do
    held ← attempt (await env (env.provider_get layer.provider scoped_key))
    elim (version_held held) [ none ↦ pure false | some current ↦ pure (precedes next current) ]

  unfoldable pub is_stale_version :
      CacheLayer → Text → Option CacheVersion → Exec (CacheState World V) Bool
  is_stale_version layer scoped_key none = do pause env; pure false
  is_stale_version layer scoped_key (some next) = do
    is_open ← breaker_open env
    if is_open then (do pause env; pure false) else compare_held layer scoped_key next

  -- one turn of the loop over the layers in `writeEntry`, past its epoch check
  unfoldable pub write_layer :
      CacheLayer
      → Text
      → CacheEntry V
      → Raw
      → ℕ
      → Option Text
      → Option Text
      → Exec (CacheState World V) (Unit {0})
  write_layer layer scoped_key entry raw ttl_ms tenant logical_key = do
    superseded ← is_stale_version layer scoped_key entry.version
    if superseded then pure tt else do
      safe_provider_write env options layer scoped_key raw ttl_ms logical_key tenant
      safe_tag_index_operation env options on_add_tags layer.tag_index (λ index.
          env.add_tags index (scope_prefix options.namespace tenant) scoped_key entry.tags ttl_ms)

  -- the loop; the result says whether it ran to its end
  unfoldable pub write_layers :
      List CacheLayer
      → Text
      → CacheEntry V
      → Raw
      → ℕ
      → Option Text
      → ℕ
      → Option Text
      → Exec (CacheState World V) Bool
  write_layers [] scoped_key entry raw ttl_ms tenant epoch_at_start logical_key = pure true
  write_layers (layer ∷ layers) scoped_key entry raw ttl_ms tenant epoch_at_start logical_key = do
    epoch ← epoch_of scoped_key
    if not (nat_eq epoch epoch_at_start) then pure false else do
      write_layer layer scoped_key entry raw ttl_ms tenant logical_key
      write_layers layers scoped_key entry raw ttl_ms tenant epoch_at_start logical_key

  -- the compensation behind the loop
  unfoldable pub compensate :
      Bool → Text → Option Text → ℕ → Option Text → Exec (CacheState World V) (Unit {0})
  compensate false scoped_key tenant epoch_at_start logical_key = pure tt
  compensate true scoped_key tenant epoch_at_start logical_key = do
    epoch ← epoch_of scoped_key
    if not (nat_eq epoch epoch_at_start)
        then delete_scoped_key env options scoped_key logical_key tenant
        else pure tt

  unfoldable pub write_serialized :
      Result Error Raw
      → Text
      → CacheEntry V
      → ℕ
      → Option Text
      → ℕ
      → Option Text
      → Exec (CacheState World V) (Unit {0})
  write_serialized (throw e) scoped_key entry ttl_ms tenant epoch_at_start logical_key = do
    record_error on_serialize e (some (or_default logical_key scoped_key)) tenant
    rethrow_unless_open options e tt
  write_serialized (ok raw) scoped_key entry ttl_ms tenant epoch_at_start logical_key = do
    finished ←
        write_layers options.layers scoped_key entry raw ttl_ms tenant epoch_at_start logical_key
    compensate finished scoped_key tenant epoch_at_start logical_key

  unfoldable pub write_entry :
      Text → CacheEntry V → ℕ → Option Text → ℕ → Option Text → Exec (CacheState World V) (Unit {0})
  write_entry scoped_key entry ttl_ms tenant epoch_at_start logical_key = do
    epoch ← epoch_of scoped_key
    if not (nat_eq epoch epoch_at_start)
        then pure tt
        else write_serialized (env.serialize entry) scoped_key entry ttl_ms tenant epoch_at_start
            logical_key
