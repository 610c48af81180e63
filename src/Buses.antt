-- ===== src/Buses.antt =====
-- The event buses of packages/pubsub, packages/kafka, packages/nats, packages/rabbitmq and
-- packages/aws-events: what each does with an event that is published and with a message that
-- arrives. A message is its text.
pub mod PubSub
pub mod Kafka
pub mod Nats
pub mod RabbitMq
pub mod Aws
pub mod Deliveries
pub mod Settled
use safecache.Base.{Bool, true, false, Option, none, some, List, [], ◌∷◌, if◌then◌else◌}
use safecache.Text.{Text}
use safecache.Result.{Result, ok, throw}
use safecache.Cache.Types.{Error}
use safecache.Cache.Exec.{Exec, pure, lift, update, attempt, modify, ◌>>=◌, ◌>>◌}
use safecache.EventShape.{Value, text, ParseError, parse_cache_event}

-- What a bus reports.
pub data Report : Type 0 where
  parse_failed : ParseError → Report
  handler_failed publish_failed transport_failed : Error → Report

-- What a consumer of RabbitMQ answers for a delivery; a refused one is put back or dropped.
pub data Settlement : Type 0 where
  acked : Settlement
  nacked : Bool → Settlement

-- The surroundings: JSON, the handler that subscribed, the sink of errors, and the calls of the
-- broker's client.
pub record BusEnv (World : Type 0) : Type 0 where
  pub json_parse : Text → Result ParseError Value
  pub stringify : Value → Text
  pub handler : Value → World → Result Error (Unit {0}) × World
  pub on_error : Report → World → Result Error (Unit {0}) × World
  pub send : Text → World → Result Error (Unit {0}) × World
  pub connect : World → Result Error (Unit {0}) × World
  pub flush : Option (World → Result Error (Unit {0}) × World)
  pub jetstream : Option (Text → World → Result Error (Unit {0}) × World)
  pub answer : Settlement → World → Result Error (Unit {0}) × World

-- The events that the handler was called with, the reports and the answers, the last one first.
pub record BusState (World : Type 0) : Type 0 where
  pub world : World
  pub handled : List Value
  pub reported : List Report
  pub settled : List Settlement

module _ {World : Type 0} where
  unfoldable pub call : (World → Result Error (Unit {0}) × World) → Exec (BusState World) (Unit {0})
  call f = do r ← update (λ s. let (r, w) = f s.world in (r, record s { world = w })); lift r

module _ {World : Type 0} (env : BusEnv World) where
  unfoldable pub parse : Text → Result ParseError Value
  parse message = parse_cache_event env.json_parse (text message)

  -- `onError`
  unfoldable pub report : Report → Exec (BusState World) (Unit {0})
  report r = do modify (λ s. record s { reported = r ∷ s.reported }); call (env.on_error r)

  -- the call of the handler
  unfoldable pub handle : Value → Exec (BusState World) (Unit {0})
  handle event = do modify (λ s. record s { handled = event ∷ s.handled }); call (env.handler event)
