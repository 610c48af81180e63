-- ===== src/Cache/FailOpen/Querying.antt =====
-- What leaves `query` of a fail-open cache, on every path.
use safecache.Base.{ℕ, zero, suc, ◌≡◌, refl, true, Option, none, some, List, [], ◌∷◌, ltb}
use safecache.Text.{Text, text_has_eq, codes}
use safecache.Result.{Result, ok, throw}
use safecache.Duration.{DurationInput}
use safecache.Cache.Types.{
  Error, missing_ttl, Fetched, CacheEntry, CacheLayer, CacheOptions, CacheState, Env, QueryOptions,
  VersionSource, unversioned, fixed, computed, Switch, flag, window,
}
use safecache.Cache.Exec.{Exec, pure, raise, lift}
use safecache.Cache.Exec.Rules.{
  Throws, Throws-raise, Throws-lift, Throws-bind, Throws-if, Throws-modify, Throws-finally,
  throws_rules,
}
use safecache.Cache.Calls.{duration_ms, fail_open, set_duration}
use safecache.Cache.Guarded.{settle_release, release_lock}
use safecache.Cache.FailOpen.{
  Origin, fetching, versioning, joining, serializing, unconfigured, duration_ms-Safe, await-Safe,
  call_rules, rethrow-Safe,
}
use safecache.Cache.Store.{ReadResult, hit, stale, miss, epoch_of, set_switch}
use safecache.Cache.Fetch.{
  resolve_ttl, resolve_lock_ttl, servable, stale_until_from, resolve_stale_until, resolve_version,
  store_fetched, fetch_and_store, wall_now, sleep, poll_peer, wait_for_peer_refresh, fetch_unless,
  fetch_holding, after_acquire, settle_acquire, acquire_lock, emit_lock_wait,
  fetch_and_store_with_distributed_lock,
}
use safecache.Cache.Guarded.{either}
use safecache.Cache.Query as Cache
use safecache.Cache.Query.{
  backfill_layers, backfill_fenced, backfill, refresh_in_background, refresh_threshold,
  refresh_ahead_if_needed, single_flight, serve_hit, serve_stale, load_missing, respond,
}
use safecache.Cache.FailOpen.Reading.{read_layers-Safe}
use safecache.Cache.FailOpen.Writing.{safe_provider_write-Safe, write_entry-Safe}

module _ {World Raw V : Type 0} (env : Env World Raw V) (query : QueryOptions World V)
    (options : CacheOptions) (opened : fail_open options ≡ true) where
  option_ms-Safe :
      (d : Option DurationInput) (label : Text) (m : Exec (CacheState World V) ℕ)
      → Throws (Origin env query) m
      → Throws (Origin env query) (elim d [ none ↦ m | some t ↦ duration_ms t label ])
  option_ms-Safe none label m k = k
  option_ms-Safe (some d) label m k = duration_ms-Safe env query d label

  resolve_ttl-Safe : Throws (Origin env query) (resolve_ttl options query)
  unfolding resolve_ttl
  resolve_ttl-Safe =
      option_ms-Safe (either query.ttl options.default_ttl) (codes "ttl") (raise missing_ttl)
        (Throws-raise missing_ttl (unconfigured refl))

  resolve_lock_ttl-Safe :
      Throws (Origin env query) (resolve_lock_ttl {World = World} {V = V} options)
  unfolding resolve_lock_ttl
  resolve_lock_ttl-Safe =
      option_ms-Safe (set_duration options.lock_ttl) (codes "lockTtl") (pure 30000)
        (search call_rules)

  stale_until_from-Safe :
      (s : Switch) (ttl : ℕ) → Throws (Origin env query) (stale_until_from env options s ttl)
  unfolding stale_until_from
  stale_until_from-Safe (flag _) ttl = search call_rules
  stale_until_from-Safe (window d) ttl = search (call_rules, duration_ms-Safe) depth 8

  stale_until_option-Safe :
      (s : Option Switch) (ttl : ℕ)
      → Throws {S = CacheState World V} {A = Option ℕ}
          (Origin env query)
          (elim s [ none ↦ pure none | some t ↦ stale_until_from env options t ttl ])
  stale_until_option-Safe none ttl = search call_rules
  stale_until_option-Safe (some t) ttl = stale_until_from-Safe t ttl

  resolve_stale_until-Safe :
      (ttl : ℕ) → Throws (Origin env query) (resolve_stale_until env options query ttl)
  unfolding resolve_stale_until
  resolve_stale_until-Safe ttl =
      stale_until_option-Safe (set_switch query.stale_while_revalidate) ttl

  resolve_version-Safe :
      (v : VersionSource World V) (content : Fetched V)
      → query.version ≡ v
      → Throws (Origin env query) (resolve_version env options v content)
  unfolding resolve_version
  resolve_version-Safe unversioned content is = search call_rules
  resolve_version-Safe (fixed v) content is = search call_rules
  resolve_version-Safe (computed f) content is =
      Throws-bind _ _
        (await-Safe env (Origin env query) (f content) (λ w e h. versioning f content w is h))
        (λ v. search call_rules)

  store_fetched-Safe :
      (k : Text) (ttl epoch : ℕ) (content : Fetched V)
      → Throws (Origin env query) (store_fetched env options query k ttl epoch content)
  unfolding store_fetched
  store_fetched-Safe k ttl epoch content =
      Throws-bind _ _ (resolve_version-Safe query.version content refl)
        (λ version. search (call_rules, resolve_stale_until-Safe, write_entry-Safe) depth 10)

  fetch_and_store-Safe :
      (k : Text) (ttl : ℕ) → Throws (Origin env query) (fetch_and_store env options query k ttl)
  unfolding fetch_and_store epoch_of
  fetch_and_store-Safe k ttl = Throws-bind _ _ (search call_rules) (λ epoch.
      Throws-bind _ _ (await-Safe env (Origin env query) query.fetcher (λ w e h. fetching w h))
        (λ content. search (call_rules, store_fetched-Safe) depth 8))

  wall_now-Safe : Throws (Origin env query) (wall_now env options)
  unfolding wall_now
  wall_now-Safe = search call_rules

  sleep-Safe : Throws (Origin env query) (sleep env options)
  unfolding sleep
  sleep-Safe = await-Safe env (Origin env query) _ (λ w e h. cc)

  servable_or-Safe :
      (found : Option (Fetched V)) (next : Exec (CacheState World V) (Option (Fetched V)))
      → Throws (Origin env query) next
      → Throws {S = CacheState World V} {A = Option (Fetched V)}
          (Origin env query)
          (elim found [ some content ↦ pure (some content) | none ↦ next ])
  servable_or-Safe none next k = k
  servable_or-Safe (some content) next k = search call_rules

  poll_peer-Safe :
      (rounds deadline : ℕ) (k : Text)
      → Throws (Origin env query) (poll_peer env options rounds deadline query k)
  unfolding poll_peer
  poll_peer-Safe zero deadline k = search call_rules
  poll_peer-Safe (suc rounds) deadline k = Throws-bind _ _ wall_now-Safe (λ now.
      Throws-if (ltb now deadline) _ (pure none)
        (λ _. Throws-bind _ _ sleep-Safe (λ _.
          Throws-bind _ _ (read_layers-Safe env query options (Origin env query) opened k) (λ read.
            servable_or-Safe (servable options query read) _ (poll_peer-Safe rounds deadline k))))
        (λ _. search call_rules))

  wait-Safe : (k : Text) → Throws (Origin env query) (wait_for_peer_refresh env options query k)
  unfolding wait_for_peer_refresh
  wait-Safe k = search (call_rules, wall_now-Safe, resolve_lock_ttl-Safe, poll_peer-Safe) depth 8

  fetch_unless-Safe :
      (found : Option (Fetched V)) (k : Text) (ttl : ℕ)
      → Throws (Origin env query) (fetch_unless env options found query k ttl)
  unfolding fetch_unless
  fetch_unless-Safe none k ttl = fetch_and_store-Safe k ttl
  fetch_unless-Safe (some content) k ttl = search call_rules

  fetch_holding-Safe :
      (k : Text) (ttl : ℕ) → Throws (Origin env query) (fetch_holding env options query k ttl)
  unfolding fetch_holding
  fetch_holding-Safe k ttl = search (call_rules, read_layers-Safe, fetch_unless-Safe) depth 8

  settle_release-Safe :
      (r : Result Error (Unit {0})) → Throws (Origin env query) (settle_release env options query r)
  unfolding settle_release
  settle_release-Safe (ok _) = search call_rules
  settle_release-Safe (throw e) = search (call_rules, rethrow-Safe) depth 8

  release_lock-Safe :
      (handle : ℕ) → Throws (Origin env query) (release_lock env options handle query)
  unfolding release_lock
  release_lock-Safe handle = search (call_rules, settle_release-Safe) depth 8

  after_acquire-Safe :
      (r : Result Error (Option ℕ)) (k : Text) (ttl : ℕ)
      → Throws (Origin env query) (after_acquire env options r query k ttl)
  unfolding after_acquire
  after_acquire-Safe (throw e) k ttl = fetch_and_store-Safe k ttl
  after_acquire-Safe (ok none) k ttl = search (call_rules, wait-Safe, fetch_unless-Safe) depth 8
  after_acquire-Safe (ok (some handle)) k ttl =
      search (call_rules, fetch_holding-Safe, release_lock-Safe) depth 8

  settle_acquire-Safe :
      (r : Result Error (Option ℕ)) → Throws (Origin env query) (settle_acquire env options query r)
  unfolding settle_acquire
  settle_acquire-Safe (ok handle) = search call_rules
  settle_acquire-Safe (throw e) = search (call_rules, rethrow-Safe) depth 8

  emit_lock_wait-Safe :
      (start : ℕ) → Throws (Origin env query) (emit_lock_wait env options query start)
  unfolding emit_lock_wait
  emit_lock_wait-Safe start = search call_rules depth 8

  acquire_lock-Safe :
      (k : Text) (ttl : ℕ) → Throws (Origin env query) (acquire_lock env options query k ttl)
  unfolding acquire_lock
  acquire_lock-Safe k ttl = search (call_rules, settle_acquire-Safe, emit_lock_wait-Safe) depth 8

  locked_fetch-Safe :
      (k : Text) (ttl : ℕ)
      → Throws (Origin env query) (fetch_and_store_with_distributed_lock env options query k ttl)
  unfolding fetch_and_store_with_distributed_lock
  locked_fetch-Safe k ttl =
      search
        (
          call_rules, resolve_lock_ttl-Safe, acquire_lock-Safe, after_acquire-Safe,
          fetch_and_store-Safe,
        )
        depth 8

  backfill_layers-Safe :
      (n : ℕ) (layers : List CacheLayer) (k : Text) (raw : Raw) (ttl : ℕ) (key : Text)
      (tenant : Option Text)
      → Throws (Origin env query) (backfill_layers env options n layers k raw ttl key tenant)
  unfolding backfill_layers
  backfill_layers-Safe zero layers k raw ttl key tenant = search call_rules
  backfill_layers-Safe (suc n) [] k raw ttl key tenant = search call_rules
  backfill_layers-Safe (suc n) (layer ∷ layers) k raw ttl key tenant =
      Throws-bind _ _
        (safe_provider_write-Safe env options (Origin env query) opened layer k raw ttl (some key)
          tenant)
        (λ _. backfill_layers-Safe n layers k raw ttl key tenant)

  serialize-Safe :
      (entry : CacheEntry V)
      → Throws (Origin env query) (lift {S = CacheState World V} (env.serialize entry))
  serialize-Safe entry = Throws-lift _ (λ e h. serializing entry h)

  backfill_fenced-Safe :
      (entry : CacheEntry V) (index ttl : ℕ) (k : Text) (epoch : ℕ) (key : Text)
      (tenant : Option Text)
      → Throws (Origin env query) (backfill_fenced env options entry index ttl k epoch key tenant)
  unfolding backfill_fenced epoch_of
  backfill_fenced-Safe entry index ttl k epoch key tenant =
      search (call_rules, serialize-Safe, backfill_layers-Safe) depth 8

  backfill-Safe :
      (entry : CacheEntry V) (index : ℕ) (k : Text) (epoch : ℕ) (key : Text) (tenant : Option Text)
      → Throws (Origin env query) (backfill env options entry index k epoch key tenant)
  unfolding backfill
  backfill-Safe entry zero k epoch key tenant = search call_rules
  backfill-Safe entry (suc index) k epoch key tenant =
      search (call_rules, backfill_fenced-Safe) depth 8

  refresh_in_background-Safe :
      (k : Text) (ttl : ℕ)
      → Throws (Origin env query) (refresh_in_background env options query k ttl)
  unfolding refresh_in_background
  refresh_in_background-Safe k ttl = search call_rules

  refresh_threshold-Safe :
      (s : Option Switch) (ttl : ℕ)
      → Throws (Origin env query) (refresh_threshold env options s ttl)
  unfolding refresh_threshold
  refresh_threshold-Safe none ttl = search call_rules
  refresh_threshold-Safe (some (flag b)) ttl = search call_rules
  refresh_threshold-Safe (some (window d)) ttl = search (call_rules, duration_ms-Safe) depth 8

  refresh_ahead-Safe :
      (k : Text) (entry : CacheEntry V) (ttl : ℕ)
      → Throws (Origin env query) (refresh_ahead_if_needed env options query k entry ttl)
  unfolding refresh_ahead_if_needed
  refresh_ahead-Safe k entry ttl =
      search (call_rules, refresh_threshold-Safe, refresh_in_background-Safe) depth 10

  single_flight-Safe :
      (k : Text) (task : Exec (CacheState World V) (Fetched V))
      → Throws (Origin env query) task
      → Throws (Origin env query) (single_flight env options k task)
  unfolding single_flight
  single_flight-Safe k task safe = Throws-bind _ _ (search throws_rules) (λ existing.
      Throws-if existing _ _
        (λ _. await-Safe env (Origin env query) (env.joined k) (λ w e h. joining k w h))
        (λ _. Throws-bind _ _ (Throws-modify _) (λ _. Throws-finally _ _ safe (Throws-modify _))))

  serve_hit-Safe :
      (k : Text) (ttl epoch : ℕ) (entry : CacheEntry V) (index : ℕ)
      → Throws (Origin env query) (serve_hit env options query k ttl epoch entry index)
  unfolding serve_hit
  serve_hit-Safe k ttl epoch entry index =
      search (call_rules, backfill-Safe, refresh_ahead-Safe) depth 10

  serve_stale-Safe :
      (k : Text) (ttl : ℕ) (entry : CacheEntry V)
      → Throws (Origin env query) (serve_stale env options query k ttl entry)
  unfolding serve_stale
  serve_stale-Safe k ttl entry = search (call_rules, refresh_in_background-Safe) depth 8

  load_missing-Safe :
      (k : Text) (ttl : ℕ) → Throws (Origin env query) (load_missing env options query k ttl)
  unfolding load_missing
  load_missing-Safe k ttl = search (call_rules, single_flight-Safe, locked_fetch-Safe) depth 10

  respond-Safe :
      (k : Text) (ttl epoch : ℕ) (read : ReadResult V)
      → Throws (Origin env query) (respond env options query k ttl epoch read)
  unfolding respond
  respond-Safe k ttl epoch (hit entry index) = serve_hit-Safe k ttl epoch entry index
  respond-Safe k ttl epoch (stale entry index) =
      search (call_rules, serve_stale-Safe, load_missing-Safe) depth 8
  respond-Safe k ttl epoch miss = load_missing-Safe k ttl

  query-Safe : Throws (Origin env query) (Cache.query env options query)
  unfolding Cache.query epoch_of
  query-Safe = search (call_rules, resolve_ttl-Safe, read_layers-Safe, respond-Safe) depth 10

  -- Whatever a fail-open cache's `query` throws, in any state and against any surroundings, was
  -- thrown by the query's own fetcher or version function, by a load that it joined or by the
  -- serializer, or is a malformed or missing duration option. No failure or timeout of a
  -- provider, a tag index, the lock or the deserializer leaves it.
  pub query_fails_open :
      (s : CacheState World V) (e : Error)
      → (Cache.query env options query s).0 ≡ throw e
      → Origin env query e
  query_fails_open s e thrown = query-Safe.from s e thrown
