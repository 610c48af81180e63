-- ===== src/Cache/Polling.antt =====
-- Waiting for a peer's refresh in `fetchAndStoreWithDistributedLock` of packages/core/src/cache.ts:
-- how long it polls.
use safecache.Base.{
  ℕ, zero, suc, ◌+◌, ◌≤◌, ◌<◌, ◌≡◌, refl, Bool, true, false, Option, none, some, List, [], ◌∷◌, ltb,
  arith, if◌then◌else◌,
}
use safecache.Text.{Text, codes}
use safecache.Result.{Result, ok, throw}
use safecache.Duration.{DurationInput}
use safecache.Cache.Types.{
  Error, Fetched, CacheEntry, CacheLayer, CacheOptions, CacheState, Env, Operation, ProviderOp,
  QueryOptions, RuntimeEvent,
}
use safecache.Cache.Exec.{Exec, pure, lift, update, ◌>>=◌, ◌>>◌}
use safecache.Cache.Exec.Rules.{
  Preserves, Preserves-lift, Preserves-update, Preserves-modify, Preserves-bind, Preserves-attempt,
  Preserves-if, Preserves-finally, Preserves-pure, preserves_rules,
}
use safecache.Cache.Calls.{
  set_duration, duration_ms, emit, record_error, rethrow_unless_open, race, await, pause, clock_now,
  breaker_open, breaker_failure, breaker_success, with_timeout, emit_latency,
}
use safecache.Cache.Guarded.{settle_read, safe_provider_read}
use safecache.Cache.Store.{
  ReadResult, hit, stale, miss, settle_raw, classify_found, or_next, read_from, read_layers,
}
use safecache.Cache.Fetch.{
  lock_poll_interval_ms, default_lock_ttl_ms, resolve_lock_ttl, servable, wall_now, sleep,
  poll_peer, wait_for_peer_refresh,
}

-- The wall clock shows `time`, which no call that the polling makes and no other task sets back,
-- and which a wait of the polling interval moves by a millisecond at least.
pub record IsTicking {World Raw V : Type 0} (env : Env World Raw V) (time : World → ℕ)
    : Type 0 where
  pub shown : (w : World) → (env.date_now w).0 ≡ time w
  pub shows : (w : World) → time w ≤ time (env.date_now w).1
  pub measures : (w : World) → time w ≤ time (env.clock w).1
  pub reads : (p : ℕ) (key : Text) (w : World) → time w ≤ time (env.provider_get p key w).1
  pub waits : (w : World) → time w < time (env.delay lock_poll_interval_ms w)
  pub others : (s : CacheState World V) → time s.world ≤ time (env.meanwhile s).world

module _ {World Raw V : Type 0} (env : Env World Raw V) (time : World → ℕ)
    (ticking : IsTicking env time) (options : CacheOptions) (query : QueryOptions World V)
    (past : ℕ) where
  -- It is later than `past`, or just then.
  abbrev Reached : CacheState World V → Type 0
  Reached s = past ≤ time s.world

  emit-Reached : (event : RuntimeEvent) → Preserves Reached (emit event)
  unfolding emit
  emit-Reached event = Preserves-modify _ (λ s held. held)

  record_error-Reached :
      (operation : Operation) (e : Error) (key tenant : Option Text)
      → Preserves Reached (record_error operation e key tenant)
  unfolding record_error
  record_error-Reached operation e key tenant =
      Preserves-bind _ _ (Preserves-modify _ (λ s held. held)) (λ _. emit-Reached _)

  rethrow-Reached :
      {A : Type 0} (e : Error) (a : A) → Preserves Reached (rethrow_unless_open options e a)
  unfolding rethrow_unless_open
  rethrow-Reached e a = search preserves_rules

  clock_now-Reached : Preserves Reached (clock_now env)
  unfolding clock_now
  clock_now-Reached =
      Preserves-update _ (λ s held. let later = ticking.measures s.world in omega arith)

  await-Reached :
      {A : Type 0} (call : World → Result Error A × World)
      → ((w : World) → time w ≤ time (call w).1)
      → Preserves Reached (await env call)
  unfolding await
  await-Reached call later = record {
    through = λ s held.
        let first = later s.world in
        let (r, w) = call s.world in
        let second = ticking.others (record s { world = w }) in omega arith;
  }

  pause-Reached : Preserves Reached (pause env)
  unfolding pause
  pause-Reached = await-Reached _ (λ w. omega arith)

  with_timeout-Reached :
      {A : Type 0} (timeout : Option DurationInput) (call : World → Result Error A × World)
      → ((w : World) → time w ≤ time (call w).1)
      → Preserves Reached (with_timeout env timeout call)
  unfolding with_timeout race duration_ms
  with_timeout-Reached timeout call later =
      elim (set_duration timeout)
        as (λ d. Preserves Reached (elim d [
          | none ↦ await env call
          | some d ↦ do ms ← duration_ms d (codes "timeout"); await env (race env ms call)
        ])) [
          | none ↦ await-Reached call later
          | some d ↦ Preserves-bind _ _ (Preserves-lift _) (λ ms. await-Reached _ later)
        ]

  breaker_open-Reached : Preserves Reached (breaker_open env)
  unfolding breaker_open
  breaker_open-Reached =
      Preserves-bind _ _ clock_now-Reached (λ now. Preserves-update _ (λ s held. held))

  breaker_failure-Reached : Preserves Reached (breaker_failure env)
  unfolding breaker_failure
  breaker_failure-Reached =
      Preserves-bind _ _ clock_now-Reached (λ now. Preserves-modify _ (λ s held. held))

  breaker_success-Reached : Preserves Reached (breaker_success env)
  unfolding breaker_success
  breaker_success-Reached = Preserves-modify _ (λ s held. held)

  emit_latency-Reached :
      (layer : CacheLayer) (op : ProviderOp) (start : ℕ) (key : Text) (tenant : Option Text)
      → Preserves Reached (emit_latency env layer op start key tenant)
  unfolding emit_latency
  emit_latency-Reached layer op start key tenant =
      Preserves-bind _ _ clock_now-Reached (λ now. emit-Reached _)

  settle_read-Reached :
      (r : Result Error (Option Raw)) → Preserves Reached (settle_read env options query r)
  unfolding settle_read
  settle_read-Reached (ok found) = search (preserves_rules, breaker_success-Reached)
  settle_read-Reached (throw e) =
      search (preserves_rules, breaker_failure-Reached, record_error-Reached, rethrow-Reached)

  safe_provider_read-Reached :
      (layer : CacheLayer) (key : Text)
      → Preserves Reached (safe_provider_read env options layer key query)
  unfolding safe_provider_read
  safe_provider_read-Reached layer key = Preserves-bind _ _ clock_now-Reached (λ start.
      Preserves-bind _ _
        (Preserves-attempt _ (with_timeout-Reached _ _ (ticking.reads layer.provider key)))
        (λ called.
          Preserves-finally _ _ (settle_read-Reached called)
            (emit_latency-Reached layer _ start _ _)))

  settle_raw-Reached :
      (index : ℕ) (r : Result Error (CacheEntry V))
      → Preserves Reached (settle_raw env options query index r)
  unfolding settle_raw
  settle_raw-Reached index (ok entry) = search (preserves_rules, clock_now-Reached)
  settle_raw-Reached index (throw e) =
      search (preserves_rules, record_error-Reached, rethrow-Reached)

  classify_found-Reached :
      (index : ℕ) (found : Option Raw)
      → Preserves Reached (classify_found env options query index found)
  unfolding classify_found
  classify_found-Reached index none = search preserves_rules
  classify_found-Reached index (some raw) = settle_raw-Reached index (env.deserialize raw)

  or_next-Reached :
      (r : ReadResult V) (next : Exec (CacheState World V) (ReadResult V))
      → Preserves Reached next
      → Preserves Reached (or_next env options r next)
  unfolding or_next
  or_next-Reached (hit entry index) next k = search preserves_rules
  or_next-Reached (stale entry index) next k = search preserves_rules
  or_next-Reached miss next k = k

  read_from-Reached :
      (key : Text) (index : ℕ) (layers : List CacheLayer)
      → Preserves Reached (read_from env options query key index layers)
  unfolding read_from
  read_from-Reached key index [] = search preserves_rules
  read_from-Reached key index (layer ∷ layers) =
      Preserves-bind _ _ (safe_provider_read-Reached layer key) (λ found.
        Preserves-bind _ _ (classify_found-Reached index found)
          (λ read. or_next-Reached read _ (read_from-Reached key (index + 1) layers)))

  read_layers-Reached : (key : Text) → Preserves Reached (read_layers env options query key)
  unfolding read_layers
  read_layers-Reached key = Preserves-bind _ _ breaker_open-Reached (λ is_open.
      Preserves-if is_open _ _ (λ _. Preserves-bind _ _ pause-Reached (λ _. Preserves-pure _))
        (λ _. read_from-Reached key 0 options.layers))

  resolve_lock_ttl-Reached : Preserves Reached (resolve_lock_ttl {V = V} options)
  unfolding resolve_lock_ttl duration_ms
  resolve_lock_ttl-Reached =
      elim (set_duration options.lock_ttl)
        as (λ d. Preserves Reached (elim d [
          | none ↦ pure default_lock_ttl_ms
          | some ttl ↦ duration_ms ttl (codes "lockTtl")
        ])) [ none ↦ Preserves-pure _ | some ttl ↦ Preserves-lift _ ]

module _ {S A B : Type 0} (Q : S → Type 0) (f g : A → Exec S B)
    (same : (a : A) (after : S) → Q after → f a after ≡ g a after) where
  lift_alike : (r : Result Error A) (st : S) → Q st → (lift r >>= f) st ≡ (lift r >>= g) st
  unfolding ◌>>=◌ lift
  lift_alike (ok a) st held = same a st held
  lift_alike (throw e) st held = refl

  -- Two ways to go on that agree wherever the first action may lead.
  next_alike : (act : Exec S A) (st : S) → Q (act st).1 → (act >>= f) st ≡ (act >>= g) st
  unfolding ◌>>=◌ lift
  next_alike act st held = let (r, after) = act st in lift_alike r after held

module _ {World Raw V : Type 0} (env : Env World Raw V) (time : World → ℕ)
    (ticking : IsTicking env time) (options : CacheOptions) (query : QueryOptions World V)
    (key : Text) where
  abbrev Polled : Type 0
  Polled = Exec (CacheState World V) (Option (Fetched V))

  abbrev found_or : Polled → Option (Fetched V) → Polled
  found_or next found = elim found [ some content ↦ pure (some content) | none ↦ next ]

  -- one round of the polling, and `next` behind it
  abbrev turn : Bool → Polled → Polled
  turn early next =
      if early
      then (do
        sleep env options
        read ← read_layers env options query key
        found_or next (servable options query read))
      else pure none

  after_read :
      (next next' : Polled) (past : ℕ)
      → ((s : CacheState World V) → past ≤ time s.world → next s ≡ next' s)
      → (found : Option (Fetched V)) (s : CacheState World V) → past ≤ time s.world
      → found_or next found s ≡ found_or next' found s
  after_read next next' past same none s held = same s held
  after_read next next' past same (some content) s held = refl

  turn_alike :
      (early : Bool) (next next' : Polled) (s : CacheState World V)
      → (early ≡ true
          → (s' : CacheState World V) → time s.world + 1 ≤ time s'.world
          → next s' ≡ next' s')
      → turn early next s ≡ turn early next' s
  unfolding sleep await
  turn_alike false next next' s same = refl
  turn_alike true next next' s same =
      let past = time s.world + 1 in
      let held : CacheState World V → Type 0 = λ s'. past ≤ time s'.world in
      let slept = ticking.waits s.world in
      let others = ticking.others (record s { world = env.delay lock_poll_interval_ms s.world }) in
      next_alike held _ _
        (λ _ s' now.
          next_alike held _ _
            (λ read. after_read next next' past (same refl) (servable options query read))
            (read_layers env options query key) s'
            ((read_layers-Reached env time ticking options query past key).through s' now))
        (sleep env options) s (omega arith)

  -- Any two numbers of rounds that reach the deadline poll alike.
  poll_peer_alike :
      (deadline n m : ℕ) (s : CacheState World V)
      → deadline ≤ time s.world + n
      → deadline ≤ time s.world + m
      → poll_peer env options (suc n) deadline query key s
        ≡ poll_peer env options (suc m) deadline query key s
  unfolding poll_peer wall_now update ◌>>=◌
  poll_peer_alike deadline zero m s a b =
      let now = ticking.shown s.world in
      turn_alike (ltb (env.date_now s.world).0 deadline) _ _
        (record s { world = (env.date_now s.world).1 }) (λ early. absurd (grind arith))
  poll_peer_alike deadline (suc n) zero s a b =
      let now = ticking.shown s.world in
      turn_alike (ltb (env.date_now s.world).0 deadline) _ _
        (record s { world = (env.date_now s.world).1 }) (λ early. absurd (grind arith))
  poll_peer_alike deadline (suc n) (suc m) s a b =
      let now = ticking.shown s.world in
      let later = ticking.shows s.world in
      turn_alike (ltb (env.date_now s.world).0 deadline) _ _
        (record s { world = (env.date_now s.world).1 })
        (λ early s' held. poll_peer_alike deadline n m s' (omega arith) (omega arith))

  -- Where the wall clock is set back by no call of the polling and no other task and each wait of
  -- the polling interval moves it by a millisecond at least, waiting for a peer ends with the same
  -- result in the same state if any number of rounds is added to those of the lock's time to live
  -- in milliseconds.
  pub wait_ends_at_deadline :
      (more : ℕ) (s : CacheState World V)
      → wait_for_peer_refresh env options query key s
        ≡ (do
          start ← wall_now env options
          lock_ttl ← resolve_lock_ttl options
          poll_peer env options (suc (lock_ttl + more)) (start + lock_ttl) query key)
            s
  unfolding wait_for_peer_refresh wall_now update ◌>>=◌
  wait_ends_at_deadline more s =
      let now = ticking.shown s.world in
      let later = ticking.shows s.world in
      let start = (env.date_now s.world).0 in
      let held : CacheState World V → Type 0 = λ s'. start ≤ time s'.world in
      let s1 = record s { world = (env.date_now s.world).1 } in
      next_alike held _ _
        (λ lock_ttl s' reached.
          poll_peer_alike (start + lock_ttl) lock_ttl (lock_ttl + more) s' (omega arith)
            (omega arith))
        (resolve_lock_ttl options) s1
        ((resolve_lock_ttl-Reached env time ticking options query start).through s1 (omega arith))
