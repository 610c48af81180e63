-- ===== src/ChangeStreams/Watch.antt =====
-- The stream of one collection in packages/mongodb-streams/src/index.ts: watching, changes, errors
-- and shutdown. The database, the cache and the sinks of errors are parameters.
pub mod Live
pub mod Resume
use safecache.Base.{
  ℕ, ◌+◌, ◌*◌, ◌^◌, Bool, true, false, not, ◌&&◌, ◌||◌, Option, none, some, List, [], ◌∷◌, leb,
  if◌then◌else◌,
}
use safecache.Text.{Text}
use safecache.Result.{Result, ok, throw}
use safecache.Cache.Types.{Error}
use safecache.CircuitBreaker.{or_default}
use safecache.ChangeStreams.Resumable.{StreamError, is_non_resumable_change_stream_error}

-- What is reported to `emit` and to `onError`.
pub data Report : Type 0 where
  stream_failed : StreamError → Report
  change_failed : Error → Report

pub record MongoReconnectOptions : Type 0 where
  pub enabled : Option Bool
  pub initial_delay_ms : Option ℕ
  pub max_delay_ms : Option ℕ
  pub factor : Option ℕ

pub record Reconnect : Type 0 where
  pub enabled : Bool
  pub initial_delay_ms : ℕ
  pub max_delay_ms : ℕ
  pub factor : ℕ

-- Each option that is missing has its default.
unfoldable pub resolve_reconnect : Option MongoReconnectOptions → Reconnect
resolve_reconnect none = record {
  enabled = true;
  initial_delay_ms = 1000;
  max_delay_ms = 30000;
  factor = 2;
}
resolve_reconnect (some options) = record {
  enabled = or_default options.enabled true;
  initial_delay_ms = or_default options.initial_delay_ms 1000;
  max_delay_ms = or_default options.max_delay_ms 30000;
  factor = or_default options.factor 2;
}

-- The state of a collection; a stream is there or not, and a timer is its delay. `watched` are the
-- tokens of the calls of `watch`, the last one first, and `reported` the reports.
pub record CollectionState (World Token : Type 0) : Type 0 where
  pub world : World
  pub resume_token : Option Token
  pub has_stream : Bool
  pub reconnect_timer : Option ℕ
  pub reconnect_attempts : ℕ
  pub is_ok : Bool
  pub last_error : Option StreamError
  pub is_closed : Bool
  pub watched : List (Option Token)
  pub reported : List Report

-- The surroundings. `others` is what else happens to the collection while a call is awaited.
pub record StreamEnv (World Token : Type 0) : Type 0 where
  pub watch : Option Token → World → Result StreamError (Unit {0}) × World
  pub invalidate : Text → Option Text → World → Result Error (Unit {0}) × World
  pub invalidate_by_tag : Text → Option Text → World → Result Error (Unit {0}) × World
  pub on_resume_token : Token → World → Result Error (Unit {0}) × World
  pub others : CollectionState World Token → CollectionState World Token

module _ {World Token : Type 0} where
  unfoldable pub notify : Report → CollectionState World Token → CollectionState World Token
  notify report s = record s { reported = report ∷ s.reported }

  -- a dead token is cleared, and the backoff starts again
  unfoldable pub forget_dead_token :
      StreamError → CollectionState World Token → CollectionState World Token
  forget_dead_token e s =
      if is_non_resumable_change_stream_error e
      then record s { resume_token = none; reconnect_attempts = 0 }
      else s

-- `Math.min(maxDelayMs, initialDelayMs * factor ** attempts)`, for a factor that is a natural number.
-- The product is exact up to the safe integers. 0 times a power that overflows is NaN, and
-- `setTimeout` takes that like the 0 here.
unfoldable pub delay_after : Reconnect → ℕ → ℕ
delay_after reconnect attempts =
    let delay = reconnect.initial_delay_ms * reconnect.factor ^ attempts in
    if leb reconnect.max_delay_ms delay then reconnect.max_delay_ms else delay

unfoldable pub is_waiting : Option ℕ → Bool
is_waiting none = false
is_waiting (some delay) = true

module _ {World Token : Type 0} (reconnect : Reconnect) where
  unfoldable pub schedule_reconnect : CollectionState World Token → CollectionState World Token
  schedule_reconnect s =
      if not reconnect.enabled || s.is_closed || is_waiting s.reconnect_timer then s else record s {
        reconnect_timer = some (delay_after reconnect s.reconnect_attempts);
        reconnect_attempts = s.reconnect_attempts + 1;
      }

  unfoldable pub handle_stream_error :
      StreamError → CollectionState World Token → CollectionState World Token
  handle_stream_error e s = schedule_reconnect (
      forget_dead_token e (record s {
        is_ok = false;
        last_error = some e;
        has_stream = false;
        reported = stream_failed e ∷ s.reported;
      }))

module _ {World Token : Type 0} (env : StreamEnv World Token) (reconnect : Reconnect) where
  unfoldable pub settle_watch :
      Result StreamError (Unit {0}) → CollectionState World Token → CollectionState World Token
  settle_watch (ok _) s = record s { has_stream = true; is_ok = true }
  settle_watch (throw e) s = handle_stream_error reconnect e s

  unfoldable pub start_watch : CollectionState World Token → CollectionState World Token
  start_watch s =
      let (r, w) = env.watch s.resume_token s.world in
      if s.is_closed
      then s
      else settle_watch r (record s { world = w; watched = s.resume_token ∷ s.watched })

  -- a timer ends, if there is one
  unfoldable pub fire : Option ℕ → CollectionState World Token → CollectionState World Token
  fire none s = s
  fire (some delay) s = start_watch (record s { reconnect_timer = none })

  abbrev pub run_reconnect : CollectionState World Token → CollectionState World Token
  run_reconnect s = fire s.reconnect_timer s

unfoldable pub shutdown :
    {World Token : Type 0} → CollectionState World Token → CollectionState World Token
shutdown s = record s { is_closed = true; reconnect_timer = none }
