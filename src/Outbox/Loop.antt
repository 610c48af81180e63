-- ===== src/Outbox/Loop.antt =====
-- The poll loop of packages/postgres-outbox/src/index.ts: the plugin's ticks and their backoff.
pub mod Backoff
use safecache.Base.{
  ℕ, ◌+◌, ◌-◌, ◌*◌, ◌^◌, Bool, true, false, ◌&&◌, ◌||◌, Option, none, some, ◌∷◌, leb, nat_eq,
  if◌then◌else◌,
}
use safecache.Result.{Result, ok, throw}
use safecache.Cache.Types.{Error}
use safecache.Cache.Exec.{Exec, pure, attempt, modify, ◌>>=◌, ◌>>◌}
use safecache.CircuitBreaker.{or_default}
use safecache.Outbox.Database.{
  OutboxEnv, OutboxState, PostgresOutboxOptions, PollResult, notify, on_poll,
}
use safecache.Outbox.Worker.{poll}

-- The timer that is set, by its delay.
pub record PluginState : Type 0 where
  pub timer : Option ℕ
  pub stopped : Bool
  pub consecutive_failures : ℕ

unfoldable pub schedule_next : ℕ → PluginState → PluginState
schedule_next delay_ms p = if p.stopped then p else record p { timer = some delay_ms }

module _ (options : PostgresOutboxOptions) where
  -- an interval that is set, and not 0
  unfoldable pub base_interval_ms : Option ℕ
  base_interval_ms = elim options.poll_interval_ms [
    | none ↦ none
    | some ms ↦ if nat_eq ms 0 then none else some ms
  ]

  unfoldable pub backoff_base_ms : ℕ
  backoff_base_ms = or_default options.poll_backoff_base_ms (or_default options.poll_interval_ms 0)

  abbrev pub backoff_max_ms : ℕ
  backoff_max_ms = or_default options.poll_backoff_max_ms 30000

  abbrev pub at_most : ℕ → ℕ → ℕ
  at_most a b = if leb a b then a else b

  -- `Math.min(base * 2 ** (n - 1), max)` at the n-th failure in a row. From the exponent 1024 on the
  -- power is Infinity, whose product with 0 is NaN: `none`. Any other product is either exact or
  -- above every safe integer.
  unfoldable pub backoff : ℕ → Option ℕ
  backoff failures =
      if nat_eq backoff_base_ms 0 && leb 1024 (failures - 1)
      then none
      else some (at_most (backoff_base_ms * 2 ^ (failures - 1)) backoff_max_ms)

  -- `interval + Math.floor(Math.random() * backoff)`, where `jitter b` is the `floor` for `b`. NaN
  -- stays NaN, which `setTimeout` takes like 0.
  unfoldable pub jittered : (ℕ → ℕ) → ℕ → Option ℕ → ℕ
  jittered jitter interval none = 0
  jittered jitter interval (some b) = interval + jitter b

  unfoldable pub after_poll : (ℕ → ℕ) → ℕ → Bool → PluginState → PluginState
  after_poll jitter interval true p =
      let failures = p.consecutive_failures + 1 in
      schedule_next (jittered jitter interval (backoff failures))
        (record p { consecutive_failures = failures })
  after_poll jitter interval false p =
      schedule_next interval (record p { consecutive_failures = 0 })

  -- the tick that fires when the timer ends; `stops` says whether it is stopped during the poll
  unfoldable pub run_tick : (ℕ → ℕ) → Bool → Bool → PluginState → PluginState
  run_tick jitter failed stops p = elim base_interval_ms [
    | none ↦ p
    | some interval ↦
        if p.stopped
        then p
        else if stops
        then record p { stopped = true; timer = none }
        else after_poll jitter interval failed p
  ]

  unfoldable pub setup : PluginState → PluginState
  setup p = elim base_interval_ms [ none ↦ p | some interval ↦ schedule_next interval p ]

unfoldable pub shutdown : PluginState → PluginState
shutdown p = record p { stopped = true; timer = none }

module _ {World : Type 0} (env : OutboxEnv World) (options : PostgresOutboxOptions) where
  -- the error event, on the cache and to the notifier
  unfoldable pub settle_poll : Result Error PollResult → Exec (OutboxState World) Bool
  settle_poll (ok r) = pure false
  settle_poll (throw e) = do
    modify (λ s. record s { emitted = e ∷ s.emitted })
    notify on_poll e
    pure true

  -- whether the tick failed
  unfoldable pub this_poll : Exec (OutboxState World) Bool
  this_poll = do settled ← attempt (poll env options); settle_poll settled
