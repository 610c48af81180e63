-- ===== src/Outbox/Worker.antt =====
-- The worker of packages/postgres-outbox/src/index.ts: `poll`.
use safecache.Base.{
  ℕ, ◌+◌, ◌-◌, ◌&&◌, ◌||◌, not, Bool, true, false, Option, none, some, List, [], ◌∷◌, ◌++◌, leb,
  nat_eq, length, if◌then◌else◌,
}
use safecache.Text.{Text, codes}
use safecache.Result.{Result, ok, throw}
use safecache.Cache.Types.{Error, timed_out}
use safecache.Cache.Exec.{Exec, pure, raise, gets, attempt, modify, finally, ◌>>=◌, ◌>>◌}
use safecache.CircuitBreaker.{or_default}
use safecache.Outbox.Rows.{Row, claimed_rows, ids, stamp, processed, dead_lettered, failed}
use safecache.Outbox.Payload.{Payload, CacheOutboxInvalidation, map_postgres_outbox_row, unique}
use safecache.Outbox.Database.{
  OutboxEnv, OutboxFailure, OutboxState, PollResult, PostgresOutboxOptions, cache, call_each,
  execute, mark, no_rows, notify, on_dead_letter, on_dead_letter_parse, on_invalidate, on_mark,
  parse, read_world, wait,
}

module _ {World : Type 0} (env : OutboxEnv World) where
  unfoldable pub apply_outbox_invalidation :
      CacheOutboxInvalidation → World → Result Error (Unit {0}) × World
  apply_outbox_invalidation inv w =
      let (r, w') = call_each (λ key. env.invalidate key inv.tenant) (unique inv.keys) w in
      let rest = call_each (λ tag. env.invalidate_by_tag tag inv.tenant) (unique inv.tags) w' in
      elim r [ ok _ ↦ rest | throw e ↦ (throw e, w') ]

  module _ (options : PostgresOutboxOptions) where
    abbrev pub propagate : Bool
    propagate = or_default options.propagate_invalidation_errors false

    -- the work, against a timer unless the timeout is 0; work that the timer overtakes goes on, and
    -- is taken to be done at once
    unfoldable pub run_invalidation :
        CacheOutboxInvalidation → World → Result Error (Unit {0}) × World
    run_invalidation inv w =
        let (r, w') = apply_outbox_invalidation inv w in
        let ms = or_default options.cache_timeout_ms 5000 in
        (if not (nat_eq ms 0) && env.timer_wins ms w' then throw (timed_out ms) else r, w')

    unfoldable pub map_row : Payload → Result Error CacheOutboxInvalidation
    map_row payload = or_default options.map_row (map_postgres_outbox_row env.json_parse) payload

    -- `begin`, the claim and `commit`; the claimed rows stay locked until the commit
    unfoldable pub claim : Exec (OutboxState World) (List (Row Payload))
    claim = do
      now ← read_world env.date_now
      execute env (λ table. table)
      stamped ← read_world env.db_now
      s ← gets (λ s. s)
      let rows =
          claimed_rows (or_default options.batch_size 100) options.max_retries
            (now - or_default options.claim_ms 30000) (env.locked s.world) s.table
      execute env (stamp (ids rows) stamped)
      pure rows

    -- the rollback, whose own failure is dropped, and the error again
    unfoldable pub settle_claim :
        Result Error (List (Row Payload)) → Exec (OutboxState World) (List (Row Payload))
    settle_claim (ok rows) = pure rows
    settle_claim (throw e) = do rolled_back ← attempt (execute env (λ table. table)); raise e

    unfoldable pub claim_batch : Exec (OutboxState World) (List (Row Payload))
    claim_batch = do execute env (λ table. table); settled ← attempt claim; settle_claim settled

    -- Phase A: the row's invalidation
    unfoldable pub invalidate_mapped :
        Result Error CacheOutboxInvalidation → Exec (OutboxState World) (Option OutboxFailure)
    invalidate_mapped (throw e) = pure (some (parse e))
    invalidate_mapped (ok inv) = do
      r ← read_world (run_invalidation inv)
      wait env
      pure (elim r [ ok _ ↦ none | throw e ↦ some (cache e) ])

    abbrev pub is_parse : OutboxFailure → Bool
    is_parse (parse e) = true
    is_parse (cache e) = false

    abbrev pub error_of : OutboxFailure → Error
    error_of (parse e) = e
    error_of (cache e) = e

    -- the text of a failure; that of a payload that cannot be mapped is wrapped by `safeMapRow`
    unfoldable pub error_message : Row Payload → OutboxFailure → Text
    error_message row (parse e) =
        codes "failed to parse outbox payload for row "
        ++ env.id_text row.id
        ++ codes ": "
        ++ env.message e
    error_message row (cache e) = env.message e

    -- `maxRetries !== undefined && retry_count + 1 >= maxRetries`
    unfoldable pub is_exhausted : ℕ → Bool
    is_exhausted retry_count = elim options.max_retries [
      | none ↦ false
      | some max_retries ↦ leb max_retries (retry_count + 1)
    ]

    unfoldable pub is_dead : Row Payload → OutboxFailure → Bool
    is_dead row failure = is_parse failure || is_exhausted row.retry_count

    -- what a failure does to the row: it is dead-lettered, or released for another attempt
    unfoldable pub failure_change : Row Payload → OutboxFailure → ℕ → Row Payload → Row Payload
    failure_change row failure now =
        if is_dead row failure
        then dead_lettered now (error_message row failure)
        else failed (error_message row failure)

    unfoldable pub mark_failure : Row Payload → OutboxFailure → Exec (OutboxState World) (Unit {0})
    mark_failure row failure = mark env row.id (failure_change row failure)

    -- a mark that fails is reported; the result says whether it was made
    unfoldable pub settle_mark : Result Error (Unit {0}) → Exec (OutboxState World) Bool
    settle_mark (ok _) = pure true
    settle_mark (throw e) = do notify on_mark e; pure false

    unfoldable pub notify_dead : Bool → OutboxFailure → Exec (OutboxState World) (Unit {0})
    notify_dead dead failure =
        if dead
        then notify (if is_parse failure then on_dead_letter_parse else on_dead_letter)
            (error_of failure)
        else pure tt

    -- the `catch` of Phase A
    unfoldable pub settle_failure :
        Row Payload → OutboxFailure → PollResult → Exec (OutboxState World) PollResult
    settle_failure row failure counts = do
      notify on_invalidate (error_of failure)
      settled ← attempt (mark_failure row failure)
      marked ← settle_mark settled
      notify_dead (is_dead row failure) failure
      if propagate && not (is_parse failure)
          then raise (error_of failure)
          else pure (record counts {
            failed = counts.failed + 1;
            dead_lettered =
                if is_dead row failure && marked
                then counts.dead_lettered + 1
                else counts.dead_lettered;
          })

    -- Phase B: the mark of a delivered row
    unfoldable pub settle_delivered : Row Payload → PollResult → Exec (OutboxState World) PollResult
    settle_delivered row counts = do
      settled ← attempt (mark env row.id processed)
      marked ← settle_mark settled
      pure (
          if marked
          then record counts { processed = counts.processed + 1 }
          else record counts { failed = counts.failed + 1 })

    unfoldable pub settle_row :
        Row Payload → Option OutboxFailure → PollResult → Exec (OutboxState World) PollResult
    settle_row row none counts = settle_delivered row counts
    settle_row row (some failure) counts = settle_failure row failure counts

    unfoldable pub dispatch : List (Row Payload) → PollResult → Exec (OutboxState World) PollResult
    dispatch [] counts = pure counts
    dispatch (row ∷ rows) counts = do
      failure ← invalidate_mapped (map_row row.payload)
      counts' ← settle_row row failure counts
      dispatch rows counts'

    unfoldable pub claim_and_dispatch : Exec (OutboxState World) PollResult
    claim_and_dispatch = do
      rows ← claim_batch
      dispatch rows (record no_rows { rows = length rows })

    unfoldable pub poll : Exec (OutboxState World) PollResult
    poll = do
      busy ← gets (λ s. s.in_flight)
      if busy then pure no_rows else do
        modify (λ s. record s { in_flight = true })
        finally claim_and_dispatch (modify (λ s. record s { in_flight = false }))
