-- ===== src/Buses/Nats.antt =====
-- packages/nats/src/index.ts: natsEventBus.
use safecache.Base.{Bool, Option, none, some, if◌then◌else◌}
use safecache.Text.{Text, codes}
use safecache.Result.{Result, ok, throw}
use safecache.Cache.Types.{Error, rejected}
use safecache.Cache.Exec.{Exec, pure, raise, attempt, ◌>>=◌, ◌>>◌}
use safecache.EventShape.{Value, ParseError}
use safecache.Buses.{
  BusEnv, BusState, parse_failed, handler_failed, publish_failed, transport_failed, call, parse,
  report, handle,
}

pub data NatsPublishConfirm : Type 0 where
  unconfirmed flushed jetstreamed : NatsPublishConfirm

module _ {World : Type 0} (env : BusEnv World) where
  unfoldable pub settle_publish : Bool → Result Error (Unit {0}) → Exec (BusState World) (Unit {0})
  settle_publish propagate (ok _) = pure tt
  settle_publish propagate (throw e) = do
    report env (publish_failed e)
    if propagate then raise e else pure tt

  unfoldable pub publish_jetstream : Text → Exec (BusState World) (Unit {0})
  publish_jetstream payload = elim env.jetstream [
    | none ↦ raise (
        rejected (
          codes
            "natsEventBus: confirm \"jetstream\" requires a client that implements jetstream()"))
    | some js ↦ call (js payload)
  ]

  unfoldable pub await_flush : Bool → Exec (BusState World) (Unit {0})
  await_flush propagate = elim env.flush [
    | none ↦ pure tt
    | some flush ↦ do settled ← attempt (call flush); settle_publish propagate settled
  ]

  unfoldable pub publish : NatsPublishConfirm → Bool → Value → Exec (BusState World) (Unit {0})
  publish jetstreamed propagate event = do
    settled ← attempt (publish_jetstream (env.stringify event))
    settle_publish propagate settled
  publish unconfirmed propagate event = call (env.send (env.stringify event))
  publish flushed propagate event = do call (env.send (env.stringify event)); await_flush propagate

  -- in the chain of an event: what its report throws is nobody's
  unfoldable pub settle_handler : Result Error (Unit {0}) → Exec (BusState World) (Unit {0})
  settle_handler (ok _) = pure tt
  settle_handler (throw e) = do settled ← attempt (report env (handler_failed e)); pure tt

  -- the chain behind an event, which runs when the callback has returned
  unfoldable pub chain : Option Value → Exec (BusState World) (Unit {0})
  chain none = pure tt
  chain (some event) = do settled ← attempt (handle env event); settle_handler settled

  -- the event that is left to the chain, if there is one
  unfoldable pub receive : Result ParseError Value → Exec (BusState World) (Option Value)
  receive (throw e) = do report env (parse_failed e); pure none
  receive (ok event) = pure (some event)

  unfoldable pub callback : Option Error → Text → Exec (BusState World) (Option Value)
  callback (some e) message = do report env (transport_failed e); pure none
  callback none message = receive (parse env message)
