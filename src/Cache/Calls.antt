-- ===== src/Cache/Calls.antt =====
-- What the calls of packages/core/src/cache.ts to the surroundings go through: the await, the
-- timeout, the breaker, error events and latency events. The breaker's time is read whether or
-- not the breaker needs it.
use safecache.Base.{ℕ, ◌+◌, ◌-◌, Bool, true, Option, none, some, [], ◌∷◌, nat_eq, if◌then◌else◌}
use safecache.Text.{Text, text_has_eq, codes}
use safecache.Result.{Result, ok, throw}
use safecache.Duration.{DurationInput, DurationError, nan, nat, number, text, parse_duration}
use safecache.CircuitBreaker
use safecache.CircuitBreaker.{or_default}
use safecache.Cache.Types.{
  Error, duration, timed_out, CacheLayer, CacheOptions, CacheState, Env, Operation, ProviderOp,
  RuntimeEvent, failed, provider_latency,
}
use safecache.Cache.Exec.{Exec, pure, raise, lift, update, modify, ◌>>=◌, ◌>>◌}

-- A duration option that counts as absent: `0`, NaN and the empty text are falsy.
unfoldable pub set_duration : Option DurationInput → Option DurationInput
set_duration none = none
set_duration (some (number nan)) = none
set_duration (some (number (nat n))) = if nat_eq n 0 then none else some (number (nat n))
set_duration (some (text [])) = none
set_duration (some d) = some d

abbrev pub as_error {κ} : {A : Type κ} → Result DurationError A → Result Error A
as_error (ok a) = ok a
as_error (throw e) = throw (duration e)

unfoldable pub duration_ms {ℓ} : {S : Type ℓ} → DurationInput → Text → Exec S ℕ
duration_ms input label = lift (as_error (parse_duration input label))

module _ {World V : Type 0} where
  unfoldable pub emit : RuntimeEvent → Exec (CacheState World V) (Unit {0})
  emit event = modify (λ s. record s { emitted = event ∷ s.emitted })

  unfoldable pub record_error :
      Operation → Error → Option Text → Option Text → Exec (CacheState World V) (Unit {0})
  record_error operation error key tenant = do
    modify (λ s. record s { stats = record s.stats { errors = s.stats.errors + 1 } })
    emit (failed operation error key tenant)

abbrev pub fail_open : CacheOptions → Bool
fail_open options = or_default options.fail_open true

-- what a caught error becomes: rethrown when the cache is fail-closed
unfoldable pub rethrow_unless_open {ℓ κ} :
    {S : Type ℓ} {A : Type κ} → CacheOptions → Error → A → Exec S A
rethrow_unless_open options e a = if fail_open options then pure a else raise e

module _ {World Raw V : Type 0} (env : Env World Raw V) where
  -- `await`: the call takes effect, then the other tasks run.
  unfoldable pub await {κ} :
      {A : Type κ} → (World → Result Error A × World) → Exec (CacheState World V) A
  await call s = let (r, w) = call s.world in (r, env.meanwhile (record s { world = w }))

  -- `await` of a method that has returned already: the other tasks run
  unfoldable pub pause : Exec (CacheState World V) (Unit {0})
  pause = await (λ w. (ok tt, w))

  unfoldable pub clock_now : Exec (CacheState World V) ℕ
  clock_now = update (λ s. let (t, w) = env.clock s.world in (t, record s { world = w }))

  -- `circuitBreaker.isOpen`
  unfoldable pub breaker_open : Exec (CacheState World V) Bool
  breaker_open = do
    now ← clock_now
    update (λ s.
        let (b, breaker) = CircuitBreaker.is_open now s.breaker in
        (b, record s { breaker = breaker }))

  unfoldable pub breaker_failure : Exec (CacheState World V) (Unit {0})
  breaker_failure = do
    now ← clock_now
    modify (λ s. record s { breaker = CircuitBreaker.record_failure now s.breaker })

  unfoldable pub breaker_success : Exec (CacheState World V) (Unit {0})
  breaker_success = modify (λ s. record s { breaker = CircuitBreaker.record_success s.breaker })

  -- the call raced against a timer of `ms`: its effect stays when the timer wins
  unfoldable pub race {κ} :
      {A : Type κ} → ℕ → (World → Result Error A × World) → World → Result Error A × World
  race ms call w =
      let (r, w') = call w in (if env.timer_wins ms w' then throw (timed_out ms) else r, w')

  unfoldable pub with_timeout {κ} :
      {A : Type κ}
      → Option DurationInput
      → (World → Result Error A × World)
      → Exec (CacheState World V) A
  with_timeout timeout call = elim (set_duration timeout) [
    | none ↦ await call
    | some d ↦ do ms ← duration_ms d (codes "timeout"); await (race ms call)
  ]

  unfoldable pub emit_latency :
      CacheLayer → ProviderOp → ℕ → Text → Option Text → Exec (CacheState World V) (Unit {0})
  emit_latency layer op start key tenant = do
    now ← clock_now
    emit (provider_latency layer.name op (now - start) key tenant)
