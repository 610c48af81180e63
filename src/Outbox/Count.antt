-- ===== src/Outbox/Count.antt =====
-- What a poll of the outbox reports.
use safecache.Base.{
  ℕ, suc, ◌+◌, ◌≤◌, ◌≡◌, refl, Bool, true, false, Option, none, some, List, [], ◌∷◌, if◌then◌else◌,
  length, arith,
}
use safecache.Result.{Result, ok, throw}
use safecache.Cache.Types.{Error}
use safecache.Cache.Exec.{Exec}
use safecache.Cache.Exec.Returns.{
  Returns, Anything, Returns-pure, Returns-bind, Returns-modify, Returns-update, Returns-attempt,
}
use safecache.Outbox.Rows.{Row}
use safecache.Outbox.Payload.{Payload, CacheOutboxInvalidation}
use safecache.Outbox.Database.{
  OutboxEnv, OutboxState, PostgresOutboxOptions, PollResult, OutboxFailure, Operation, notify,
  read_world, wait,
}
use safecache.Outbox.Worker.{
  invalidate_mapped, settle_mark, notify_dead, settle_failure, settle_delivered, settle_row,
  dispatch, propagate,
}

-- One more row is counted, as processed or as failed, and as dead-lettered only if as failed.
pub record Counts (n : ℕ) (before after : PollResult) : Type 0 where
  pub rows : after.rows ≡ before.rows
  pub all : after.processed + after.failed ≡ before.processed + before.failed + n
  pub dead : after.dead_lettered + before.failed ≤ after.failed + before.dead_lettered

module _ {World : Type 0} (env : OutboxEnv World) (options : PostgresOutboxOptions) where
  notify-Returns : (o : Operation) (e : Error) → Returns Anything (notify {World = World} o e)
  unfolding notify
  notify-Returns o e = Returns-modify _

  settle_mark-Returns : (r : Result Error (Unit {0})) → Returns Anything (settle_mark env options r)
  unfolding settle_mark
  settle_mark-Returns (ok _) = Returns-pure true tt
  settle_mark-Returns (throw e) =
      Returns-bind _ _ (notify-Returns _ e) (λ _ _. Returns-pure false tt)

  notify_dead-Returns :
      (dead : Bool) (f : OutboxFailure) → Returns Anything (notify_dead env options dead f)
  unfolding notify_dead
  notify_dead-Returns true f = notify-Returns _ _
  notify_dead-Returns false f = Returns-pure tt tt

  invalidate_mapped-Returns :
      (r : Result Error CacheOutboxInvalidation)
      → Returns Anything (invalidate_mapped env options r)
  unfolding invalidate_mapped read_world wait
  invalidate_mapped-Returns (throw e) = Returns-pure _ tt
  invalidate_mapped-Returns (ok inv) =
      Returns-bind _ _ (Returns-update _)
        (λ r _. Returns-bind _ _ (Returns-modify _) (λ _ _. Returns-pure _ tt))

  count_delivered :
      (marked : Bool) (counts : PollResult)
      → Counts 1 counts (
          if marked
          then record counts { processed = counts.processed + 1 }
          else record counts { failed = counts.failed + 1 })
  count_delivered marked counts = ground arith

  settle_delivered-Returns :
      (row : Row Payload) (counts : PollResult)
      → Returns (Counts 1 counts) (settle_delivered env options row counts)
  unfolding settle_delivered
  settle_delivered-Returns row counts = Returns-bind _ _ (Returns-attempt _) (λ settled _.
      Returns-bind _ _ (settle_mark-Returns settled)
        (λ marked _. Returns-pure _ (count_delivered marked counts)))

  module _ (contained : propagate env options ≡ false) where
    settle_failure-Returns :
        (row : Row Payload) (f : OutboxFailure) (counts : PollResult)
        → Returns (Counts 1 counts) (settle_failure env options row f counts)
    unfolding settle_failure
    settle_failure-Returns row f counts = Returns-bind _ _ (notify-Returns _ _) (λ _ _.
        Returns-bind _ _ (Returns-attempt _) (λ settled _.
          Returns-bind _ _ (settle_mark-Returns settled) (λ marked _.
            Returns-bind _ _ (notify_dead-Returns _ f) (λ _ _.
              rw contained (
                Returns-pure _ (record { rows = refl; all = omega arith; dead = ground arith }))))))

    settle_row-Returns :
        (row : Row Payload) (o : Option OutboxFailure) (counts : PollResult)
        → Returns (Counts 1 counts) (settle_row env options row o counts)
    unfolding settle_row
    settle_row-Returns row none counts = settle_delivered-Returns row counts
    settle_row-Returns row (some f) counts = settle_failure-Returns row f counts

    Counts-then : (n : ℕ) (a b c : PollResult) → Counts 1 a b → Counts n b c → Counts (suc n) a c
    Counts-then n a b c one more = ground arith

    Returns-weaken :
        (n : ℕ) (a b : PollResult) (m : Exec (OutboxState World) PollResult)
        → Counts 1 a b
        → Returns (Counts n b) m
        → Returns (Counts (suc n) a) m
    Returns-weaken n a b m one r = record {
      value = λ s. let (c, e, more) = r.value s in (c, e, Counts-then n a b c one more);
    }

    dispatch-Returns :
        (rows : List (Row Payload)) (counts : PollResult)
        → Returns (Counts (length rows) counts) (dispatch env options rows counts)
    unfolding dispatch
    dispatch-Returns [] counts =
        Returns-pure counts (record { rows = refl; all = omega arith; dead = omega arith })
    dispatch-Returns (row ∷ rows) counts = Returns-bind _ _ (invalidate_mapped-Returns _) (λ o _.
        Returns-bind _ _ (settle_row-Returns row o counts) (λ counts' one.
          Returns-weaken (length rows) counts counts' _ one (dispatch-Returns rows counts')))

    -- Unless errors are to be propagated, the dispatch of a batch returns, whatever the cache and
    -- the database do: each row is counted once, as processed or as failed, and a row that is
    -- counted as dead-lettered is counted as failed.
    pub dispatch_reports_all :
        (rows : List (Row Payload)) (counts : PollResult) (s : OutboxState World)
        → (after : PollResult) × ((dispatch env options rows counts s).0 ≡ ok after)
          × Counts (length rows) counts after
    dispatch_reports_all rows counts s = (dispatch-Returns rows counts).value s
