-- ===== src/Buses/PubSub.antt =====
-- packages/pubsub/src/index.ts: redisPubSub.
use safecache.Base.{Bool, Option, none, some, if◌then◌else◌}
use safecache.Text.{Text}
use safecache.Result.{Result, ok, throw}
use safecache.Cache.Types.{Error}
use safecache.Cache.Exec.{Exec, pure, raise, attempt, ◌>>=◌, ◌>>◌}
use safecache.EventShape.{Value, ParseError}
use safecache.Buses.{
  BusEnv, BusState, Report, parse_failed, handler_failed, publish_failed, call, parse, report,
  handle,
}

module _ {World : Type 0} (env : BusEnv World) where
  -- what the notifier throws is dropped
  unfoldable pub notify : Report → Exec (BusState World) (Unit {0})
  notify r = do settled ← attempt (report env r); pure tt

  unfoldable pub settle_publish : Bool → Result Error (Unit {0}) → Exec (BusState World) (Unit {0})
  settle_publish propagate (ok _) = pure tt
  settle_publish propagate (throw e) = do
    notify (publish_failed e)
    if propagate then raise e else pure tt

  unfoldable pub publish : Bool → Value → Exec (BusState World) (Unit {0})
  publish propagate event = do
    settled ← attempt (call (env.send (env.stringify event)))
    settle_publish propagate settled

  unfoldable pub settle_handler : Result Error (Unit {0}) → Exec (BusState World) (Unit {0})
  settle_handler (ok _) = pure tt
  settle_handler (throw e) = notify (handler_failed e)

  -- the chain behind an event, which runs when the listener has returned
  unfoldable pub chain : Option Value → Exec (BusState World) (Unit {0})
  chain none = pure tt
  chain (some event) = do settled ← attempt (handle env event); settle_handler settled

  -- the event that is left to the chain, if there is one
  unfoldable pub receive : Result ParseError Value → Exec (BusState World) (Option Value)
  receive (throw e) = do notify (parse_failed e); pure none
  receive (ok event) = pure (some event)

  unfoldable pub listener : Text → Exec (BusState World) (Option Value)
  listener message = receive (parse env message)
