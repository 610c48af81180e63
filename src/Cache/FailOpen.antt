-- ===== src/Cache/FailOpen.antt =====
-- What a fail-open cache lets out of `query`: nothing that its providers, tag indexes, lock,
-- deserializer or timeouts do.
pub mod Reading
pub mod Writing
pub mod Querying
use safecache.Base.{
  ℕ, suc, ◌+◌, ◌≡◌, refl, Bool, true, false, Option, none, some, List, [], ◌∷◌, if◌then◌else◌, ap,
  ◌∙◌, sym, arith,
}
use safecache.Text.{Text}
use safecache.Result.{Result, ok, throw}
use safecache.Duration.{DurationInput, DurationError, parse_duration}
use safecache.Cache.Types.{
  Error, duration, missing_ttl, Fetched, CacheEntry, CacheVersion, CacheLayer, CacheOptions,
  CacheState, Env, Operation, ProviderOp, QueryOptions, VersionSource, unversioned, fixed, computed,
  RuntimeEvent, Switch, flag, window,
}
use safecache.Cache.Exec.{Exec, pure, raise, lift, gets, update, attempt, modify, ◌>>=◌, ◌>>◌}
use safecache.Cache.Exec.Rules.{
  Throws, Throws-pure, Throws-raise, Throws-lift, Throws-bind, Throws-if, throws_rules,
}
use safecache.Cache.Calls.{
  as_error, duration_ms, emit, record_error, fail_open, rethrow_unless_open, await, pause,
  clock_now, breaker_open, breaker_failure, breaker_success, with_timeout, emit_latency,
}
use safecache.Cache.Guarded.{
  settle_read, safe_provider_read, settle_write, guarded_write, safe_provider_write, settle_delete,
  delete_from, delete_scoped_key, safe_tag_index_operation, done_or_recorded, settle_release,
  release_lock,
}

-- Where an error that leaves `query` may come from: the query's fetcher, its version function, a
-- load that was joined, the serializer (when it backfills) or a malformed option.
pub data Origin {World Raw V : Type 0} (env : Env World Raw V) (query : QueryOptions World V)
    (e : Error) : Type 0 where
  fetching : (w : World) → (query.fetcher w).0 ≡ throw e → Origin env query e
  versioning :
      (f : Fetched V → World → Result Error CacheVersion × World) (content : Fetched V) (w : World)
      → query.version ≡ computed f
      → (f content w).0 ≡ throw e
      → Origin env query e
  joining : (key : Text) (w : World) → (env.joined key w).0 ≡ throw e → Origin env query e
  serializing : (entry : CacheEntry V) → env.serialize entry ≡ throw e → Origin env query e
  misconfigured : (d : DurationError) → e ≡ duration d → Origin env query e
  unconfigured : e ≡ missing_ttl → Origin env query e

duration_error :
    {A : Type 0} (r : Result DurationError A) (e : Error)
    → as_error r ≡ throw e
    → (d : DurationError) × (e ≡ duration d)
duration_error (ok a) e h = cc
duration_error (throw d) e h = (d, cc)

module _ {World Raw V : Type 0} (env : Env World Raw V) (query : QueryOptions World V) where
  pub duration_ms-Safe :
      (d : DurationInput) (label : Text)
      → Throws (Origin env query) (duration_ms {S = CacheState World V} d label)
  unfolding duration_ms
  duration_ms-Safe d label =
      Throws-lift _
        (λ e h. let (err, is) = duration_error (parse_duration d label) e h in misconfigured err is)

-- The building blocks that throw nothing of their own, for any judgement on errors.
module _ {World Raw V : Type 0} (env : Env World Raw V) (P : Error → Type 0) where
  pub emit-Safe : (event : RuntimeEvent) → Throws P (emit {World = World} {V = V} event)
  unfolding emit
  emit-Safe event = search throws_rules

  pub record_error-Safe :
      (o : Operation) (e : Error) (key tenant : Option Text)
      → Throws P (record_error {World = World} {V = V} o e key tenant)
  unfolding record_error
  record_error-Safe o e key tenant = search (throws_rules, emit-Safe)

  pub clock_now-Safe : Throws P (clock_now env)
  unfolding clock_now
  clock_now-Safe = search throws_rules

  pub breaker_open-Safe : Throws P (breaker_open env)
  unfolding breaker_open
  breaker_open-Safe = search (throws_rules, clock_now-Safe)

  pub breaker_failure-Safe : Throws P (breaker_failure env)
  unfolding breaker_failure
  breaker_failure-Safe = search (throws_rules, clock_now-Safe)

  pub breaker_success-Safe : Throws P (breaker_success env)
  unfolding breaker_success
  breaker_success-Safe = search throws_rules

  pub emit_latency-Safe :
      (layer : CacheLayer) (op : ProviderOp) (start : ℕ) (key : Text) (tenant : Option Text)
      → Throws P (emit_latency env layer op start key tenant)
  unfolding emit_latency
  emit_latency-Safe layer op start key tenant = search (throws_rules, clock_now-Safe, emit-Safe)

  -- an awaited call throws only what the call rejects with
  pub await-Safe {κ} :
      {A : Type κ} (call : World → Result Error A × World)
      → ((w : World) (e : Error) → (call w).0 ≡ throw e → P e)
      → Throws P (await env call)
  unfolding await
  await-Safe call known = record { from = λ s e h. known s.world e h }

  pub pause-Safe : Throws P (pause env)
  unfolding pause await
  pause-Safe = record { from = λ s e h. cc }

  pub ruleset call_rules = (
    throws_rules, pause-Safe, emit-Safe, record_error-Safe, clock_now-Safe, breaker_open-Safe,
    breaker_failure-Safe, breaker_success-Safe, emit_latency-Safe,
  )

  module _ (options : CacheOptions) (opened : fail_open options ≡ true) where
    pub rethrow-Safe {κ} :
        {A : Type κ} (e : Error) (a : A)
        → Throws P (rethrow_unless_open {S = CacheState World V} options e a)
    unfolding rethrow_unless_open
    rethrow-Safe e a = rw opened (Throws-pure a)
