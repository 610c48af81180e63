-- ===== src/Buses/Kafka.antt =====
-- packages/kafka/src/index.ts: kafkaEventBus.
use safecache.Base.{Bool, Option, none, some, if◌then◌else◌}
use safecache.Text.{Text}
use safecache.Result.{Result, ok, throw}
use safecache.Cache.Types.{Error}
use safecache.Cache.Exec.{Exec, pure, raise, attempt, ◌>>=◌, ◌>>◌}
use safecache.EventShape.{Value, ParseError}
use safecache.Buses.{
  BusEnv, BusState, parse_failed, handler_failed, transport_failed, call, parse, report, handle,
}

module _ {World : Type 0} (env : BusEnv World) where
  -- the producer is connected, or was before
  unfoldable pub publish : Value → Exec (BusState World) (Unit {0})
  publish event = do call env.connect; call (env.send (env.stringify event))

  unfoldable pub settle_handler : Result Error (Unit {0}) → Exec (BusState World) (Unit {0})
  settle_handler (ok _) = pure tt
  settle_handler (throw e) = report env (handler_failed e)

  unfoldable pub receive : Result ParseError Value → Exec (BusState World) (Unit {0})
  receive (throw e) = report env (parse_failed e)
  receive (ok event) = do settled ← attempt (handle env event); settle_handler settled

  unfoldable pub each_message : Option Text → Exec (BusState World) (Unit {0})
  each_message none = pure tt
  each_message (some value) = receive (parse env value)

  -- the wiring of a subscription, `wire`, has failed or not
  unfoldable pub settle_subscribe :
      Bool → Result Error (Unit {0}) → Exec (BusState World) (Unit {0})
  settle_subscribe propagate (ok _) = pure tt
  settle_subscribe propagate (throw e) = do
    report env (transport_failed e)
    if propagate then raise e else pure tt

  unfoldable pub subscribe :
      Bool → (World → Result Error (Unit {0}) × World) → Exec (BusState World) (Unit {0})
  subscribe propagate wire = do settled ← attempt (call wire); settle_subscribe propagate settled
