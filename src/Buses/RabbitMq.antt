-- ===== src/Buses/RabbitMq.antt =====
-- packages/rabbitmq/src/index.ts: rabbitMqEventBus.
use safecache.Base.{Bool, false, ◌∷◌}
use safecache.Text.{Text}
use safecache.Result.{Result, ok, throw}
use safecache.Cache.Types.{Error}
use safecache.Cache.Exec.{Exec, attempt, modify, ◌>>=◌, ◌>>◌}
use safecache.EventShape.{Value, ParseError}
use safecache.Buses.{
  BusEnv, BusState, parse_failed, handler_failed, Settlement, acked, nacked, call, parse, report,
  handle,
}

module _ {World : Type 0} (env : BusEnv World) where
  -- the exchange is asserted first
  unfoldable pub publish : Value → Exec (BusState World) (Unit {0})
  publish event = do call env.connect; call (env.send (env.stringify event))

  -- `ack` or `nack`
  unfoldable pub settle : Settlement → Exec (BusState World) (Unit {0})
  settle settlement = do
    modify (λ s. record s { settled = settlement ∷ s.settled })
    call (env.answer settlement)

  unfoldable pub settle_handler : Bool → Result Error (Unit {0}) → Exec (BusState World) (Unit {0})
  settle_handler requeue_on_handler_error (ok _) = settle acked
  settle_handler requeue_on_handler_error (throw e) = do
    settle (nacked requeue_on_handler_error)
    report env (handler_failed e)

  unfoldable pub receive : Bool → Result ParseError Value → Exec (BusState World) (Unit {0})
  receive requeue_on_handler_error (throw e) = do settle (nacked false); report env (parse_failed e)
  receive requeue_on_handler_error (ok event) = do
    settled ← attempt (handle env event)
    settle_handler requeue_on_handler_error settled

  unfoldable pub dispatch : Bool → Text → Exec (BusState World) (Unit {0})
  dispatch requeue_on_handler_error message = receive requeue_on_handler_error (parse env message)
