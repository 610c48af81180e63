-- ===== src/Outbox/Database.antt =====
-- The database, the cache and the other workers in packages/postgres-outbox/src/index.ts, and the
-- statements that a worker sends.
use safecache.Base.{ℕ, Bool, Option, List, [], ◌∷◌}
use safecache.Text.{Text}
use safecache.Result.{Result, ok, throw}
use safecache.Cache.Types.{Error}
use safecache.Cache.Exec.{Exec, raise, update, modify, ◌>>=◌, ◌>>◌}
use safecache.Outbox.Rows.{Row, update_row}
use safecache.Outbox.Payload.{Payload, CacheOutboxInvalidation}

-- How the database answers a statement: it is carried out, it is refused, or it is carried out
-- and the answer is lost.
pub data Reply : Type 0 where
  done : Reply
  refused lost : Error → Reply

-- What an error is reported under. An error of a mapping is reported as it is, without the wrapping.
pub data Operation : Type 0 where
  on_invalidate on_mark on_dead_letter on_dead_letter_parse on_poll : Operation

-- Why a row was not delivered.
pub data OutboxFailure : Type 0 where
  parse cache : Error → OutboxFailure

pub record PostgresOutboxOptions : Type 0 where
  pub batch_size : Option ℕ
  pub map_row : Option (Payload → Result Error CacheOutboxInvalidation)
  pub max_retries : Option ℕ
  pub cache_timeout_ms : Option ℕ
  pub claim_ms : Option ℕ
  pub propagate_invalidation_errors : Option Bool
  pub poll_interval_ms : Option ℕ
  pub poll_backoff_base_ms : Option ℕ
  pub poll_backoff_max_ms : Option ℕ

pub record OutboxState (World : Type 0) : Type 0 where
  pub world : World
  pub table : List (Row Payload)
  pub in_flight : Bool
  pub notified : List (Operation × Error)
  pub emitted : List Error

pub record PollResult : Type 0 where
  pub rows : ℕ
  pub processed : ℕ
  pub failed : ℕ
  pub dead_lettered : ℕ

-- The surroundings: two clocks, the database's answers and locks, the cache, JSON and the
-- texts of an error and of an id. `others` is what other workers do to the table while a call is awaited.
pub record OutboxEnv (World : Type 0) : Type 0 where
  pub date_now : World → ℕ × World
  pub db_now : World → ℕ × World
  pub reply : World → Reply × World
  pub locked : World → ℕ → Bool
  pub others : List (Row Payload) → List (Row Payload)
  pub invalidate : Text → Option Text → World → Result Error (Unit {0}) × World
  pub invalidate_by_tag : Text → Option Text → World → Result Error (Unit {0}) × World
  pub timer_wins : ℕ → World → Bool
  pub json_parse : Text → Result Error Payload
  pub message : Error → Text
  pub id_text : ℕ → Text

abbrev pub no_rows : PollResult
no_rows = record { rows = 0; processed = 0; failed = 0; dead_lettered = 0 }

module _ {World : Type 0} where
  -- the notifier; what it throws is dropped
  unfoldable pub notify : Operation → Error → Exec (OutboxState World) (Unit {0})
  notify operation error = modify (λ s. record s { notified = (operation, error) ∷ s.notified })

  -- a reading of the surroundings
  unfoldable pub read_world {κ} : {A : Type κ} → (World → A × World) → Exec (OutboxState World) A
  read_world f = update (λ s. let (a, w) = f s.world in (a, record s { world = w }))

  -- the loops of `applyOutboxInvalidation`
  unfoldable pub call_each :
      (Text → World → Result Error (Unit {0}) × World)
      → List Text
      → World
      → Result Error (Unit {0}) × World
  call_each call [] w = (ok tt, w)
  call_each call (t ∷ ts) w =
      let (r, w') = call t w in
      let rest = call_each call ts w' in elim r [ ok _ ↦ rest | throw e ↦ (throw e, w') ]

module _ {World : Type 0} (env : OutboxEnv World) where
  unfoldable pub wait : Exec (OutboxState World) (Unit {0})
  wait = modify (λ s. record s { table = env.others s.table })

  -- what an answer leaves of a statement's change
  unfoldable pub settle_reply :
      (List (Row Payload) → List (Row Payload)) → Reply → Exec (OutboxState World) (Unit {0})
  settle_reply change done = modify (λ s. record s { table = change s.table })
  settle_reply change (refused e) = raise e
  settle_reply change (lost e) = do modify (λ s. record s { table = change s.table }); raise e

  -- `client.query` of one statement
  unfoldable pub execute :
      (List (Row Payload) → List (Row Payload)) → Exec (OutboxState World) (Unit {0})
  execute change = do wait; answer ← read_world env.reply; settle_reply change answer

  unfoldable pub mark : ℕ → (ℕ → Row Payload → Row Payload) → Exec (OutboxState World) (Unit {0})
  mark id change = do now ← read_world env.db_now; execute (update_row id (change now))
