-- ===== src/Outbox/Poison.antt =====
-- A row whose delivery keeps failing leaves the queue.
use safecache.Base.{
  ap, ◌∙◌, inl, inr, Bool-cases, ℕ, suc, ◌+◌, ◌≤◌, ◌<◌, ◌≡◌, none, some, List, [], ◌∷◌, ltb, length,
  arith,
}
use safecache.Cache.Types.{Error}
use safecache.Outbox.Rows.{
  Row, is_unleased, below_cap, is_unprocessed, is_claimable, dead_lettered, failed,
}
use safecache.Outbox.Payload.{Payload}
use safecache.Outbox.Database.{OutboxEnv, PostgresOutboxOptions, cache}
use safecache.Outbox.Worker.{is_exhausted, is_dead, failure_change}

module _ {World : Type 0} (env : OutboxEnv World) (options : PostgresOutboxOptions) where
  -- a row that fails to be delivered at these times with these errors
  pub fail_all : List (ℕ × Error) → Row Payload → Row Payload
  fail_all [] row = row
  fail_all ((now, e) ∷ failures) row =
      fail_all failures (failure_change env options row (cache e) now row)

  released :
      (max_retries now boundary : ℕ) (e : Error) (row : Row Payload)
      → options.max_retries ≡ some max_retries
      → row.processed_at ≡ none
      → row.retry_count + 1 < max_retries
      → (let row' : Row Payload = failure_change env options row (cache e) now row in
          (row'.processed_at ≡ none)
          × (row'.claimed_at ≡ none)
          × (row'.retry_count ≡ row.retry_count + 1))
  unfolding failure_change is_dead is_exhausted failed
  released max_retries now boundary e row cap pending few = rw cap (ground arith)

  retired :
      (max_retries now : ℕ) (e : Error) (row : Row Payload)
      → options.max_retries ≡ some max_retries
      → row.retry_count + 1 ≡ max_retries
      → (failure_change env options row (cache e) now row).processed_at ≡ some now
  unfolding failure_change is_dead is_exhausted dead_lettered
  retired max_retries now e row cap last = rw cap (ground arith)

  one_failure :
      (max_retries boundary now : ℕ) (e : Error) (row : Row Payload)
      → options.max_retries ≡ some max_retries
      → row.processed_at ≡ none
      → row.retry_count + 1 ≤ max_retries
      → is_claimable (some max_retries) boundary (failure_change env options row (cache e) now row)
        ≡ ltb (row.retry_count + 1) max_retries
  unfolding is_claimable is_unprocessed is_unleased below_cap
  one_failure max_retries boundary now e row cap pending few =
      elim (Bool-cases (ltb (row.retry_count + 1) max_retries)) [
        | inl more ↦
            let (a, b, c) = released max_retries now boundary e row cap pending (ground arith) in
            rw (a, b, c) (ground arith)
        | inr last ↦ rw (retired max_retries now e row cap (ground arith)) (ground arith)
      ]

  -- A row that is not processed and whose delivery fails again and again can be claimed until the
  -- failures reach `max_retries`, and at no time after: it is tried at most that often, and then it
  -- no longer stands before the rows behind it.
  pub poison_row_retires :
      (max_retries boundary now : ℕ) (e : Error) (failures : List (ℕ × Error)) (row : Row Payload)
      → options.max_retries ≡ some max_retries
      → row.processed_at ≡ none
      → row.retry_count + suc (length failures) ≤ max_retries
      → is_claimable (some max_retries) boundary (fail_all ((now, e) ∷ failures) row)
        ≡ ltb (row.retry_count + suc (length failures)) max_retries
  unfolding fail_all
  poison_row_retires max_retries boundary now e [] row cap pending few =
      one_failure max_retries boundary now e row cap pending few
  poison_row_retires max_retries boundary now e ((later, e') ∷ failures) row cap pending few =
      let row' = failure_change env options row (cache e) now row in
      let (a, b, c) = released max_retries now boundary e row cap pending (omega arith) in
      let retries : row'.retry_count + suc (length failures)
          ≡ row.retry_count + suc (suc (length failures)) =
        omega (arith, c) in
      poison_row_retires max_retries boundary later e' failures row' cap a (omega (arith, retries))
      ∙ ap (λ n. ltb n max_retries) retries
