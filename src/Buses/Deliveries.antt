-- ===== src/Buses/Deliveries.antt =====
-- What the event buses do with a message, against one description of it.
use safecache.Base.{◌≡◌, refl, Bool, false, none, some, ◌∷◌}
use safecache.Text.{Text}
use safecache.Result.{Result, ok, throw}
use safecache.Cache.Types.{Error}
use safecache.Cache.Exec.{pure, lift, update, attempt, modify, ◌>>=◌}
use safecache.EventShape.{text, Value, ParseError}
use safecache.Buses.{
  BusEnv, BusState, Report, parse_failed, handler_failed, Settlement, acked, nacked, call, parse,
  report, handle,
}
use safecache.Buses.PubSub
use safecache.Buses.Kafka
use safecache.Buses.Nats
use safecache.Buses.Aws

-- No report of the sink of errors throws.
abbrev pub IsQuiet : {World : Type 0} → BusEnv World → Type 0
IsQuiet {World} env = (r : Report) (w : World) → (env.on_error r w).0 ≡ ok tt

module _ {World : Type 0} (env : BusEnv World) where
  -- one report
  unfoldable pub note : Report → BusState World → BusState World
  note r s = record s { reported = r ∷ s.reported; world = (env.on_error r s.world).1 }

  unfoldable pub note_failure : Result Error (Unit {0}) → BusState World → BusState World
  note_failure (ok _) s = s
  note_failure (throw e) s = note (handler_failed e) s

  -- A message that is no event is reported. An event goes to the handler once, whose error is
  -- reported.
  unfoldable pub deliver : Result ParseError Value → BusState World → BusState World
  deliver (throw e) s = note (parse_failed e) s
  deliver (ok event) s =
      let (r, w) = env.handler event s.world in
      note_failure r (record s { handled = event ∷ s.handled; world = w })

  -- the answer that a delivery deserves
  unfoldable pub settlement_for : Bool → Result ParseError Value → World → Settlement
  settlement_for requeue (throw e) w = nacked false
  settlement_for requeue (ok event) w = elim (env.handler event w).0 [
    | ok _ ↦ acked
    | throw e ↦ nacked requeue
  ]

  module _ (quiet : IsQuiet env) where
    pub report_lem : (r : Report) (s : BusState World) → report env r s ≡ (ok tt, note r s)
    unfolding report call note modify update lift ◌>>=◌
    report_lem r s = rw (quiet r s.world) refl

    listener_handler_lem :
        (r : Result Error (Unit {0})) (s : BusState World)
        → PubSub.settle_handler env r s ≡ (ok tt, note_failure r s)
    unfolding PubSub.settle_handler PubSub.notify pure attempt note_failure ◌>>=◌
    listener_handler_lem (ok tt) s = refl
    listener_handler_lem (throw e) s = rw (report_lem (handler_failed e) s) refl

    listener_receive_lem :
        (r : Result ParseError Value) (s : BusState World)
        → ((PubSub.receive env r >>= PubSub.chain env) s ≡ (ok tt, deliver r s))
          × ((PubSub.receive env r s).1.handled ≡ s.handled)
    unfolding PubSub.receive PubSub.chain PubSub.notify handle call deliver note pure modify update
        lift attempt ◌>>=◌
    listener_receive_lem (throw e) s = rw (report_lem (parse_failed e) s) (refl, refl)
    listener_receive_lem (ok event) s = (listener_handler_lem _ _, refl)

    each_message_handler_lem :
        (r : Result Error (Unit {0})) (s : BusState World)
        → Kafka.settle_handler env r s ≡ (ok tt, note_failure r s)
    unfolding Kafka.settle_handler pure attempt note_failure ◌>>=◌
    each_message_handler_lem (ok tt) s = refl
    each_message_handler_lem (throw e) s = rw (report_lem (handler_failed e) s) refl

    each_message_receive_lem :
        (r : Result ParseError Value) (s : BusState World)
        → Kafka.receive env r s ≡ (ok tt, deliver r s)
    unfolding Kafka.receive handle call deliver pure modify update lift attempt ◌>>=◌
    each_message_receive_lem (throw e) s = rw (report_lem (parse_failed e) s) refl
    each_message_receive_lem (ok event) s = each_message_handler_lem _ _

    callback_handler_lem :
        (r : Result Error (Unit {0})) (s : BusState World)
        → Nats.settle_handler env r s ≡ (ok tt, note_failure r s)
    unfolding Nats.settle_handler pure attempt note_failure ◌>>=◌
    callback_handler_lem (ok tt) s = refl
    callback_handler_lem (throw e) s = rw (report_lem (handler_failed e) s) refl

    callback_receive_lem :
        (r : Result ParseError Value) (s : BusState World)
        → ((Nats.receive env r >>= Nats.chain env) s ≡ (ok tt, deliver r s))
          × ((Nats.receive env r s).1.handled ≡ s.handled)
    unfolding Nats.receive Nats.chain handle call deliver note pure modify update lift attempt ◌>>=◌
    callback_receive_lem (throw e) s = rw (report_lem (parse_failed e) s) (refl, refl)
    callback_receive_lem (ok event) s = (callback_handler_lem _ _, refl)

    bridged_handler_lem :
        (r : Result Error (Unit {0})) (s : BusState World)
        → Aws.settle_handler env r s ≡ (ok tt, note_failure r s)
    unfolding Aws.settle_handler pure attempt note_failure ◌>>=◌
    bridged_handler_lem (ok tt) s = refl
    bridged_handler_lem (throw e) s = rw (report_lem (handler_failed e) s) refl

    bridged_receive_lem :
        (r : Result ParseError Value) (s : BusState World)
        → Aws.receive env r s ≡ (ok tt, deliver r s)
    unfolding Aws.receive handle call deliver pure modify update lift attempt ◌>>=◌
    bridged_receive_lem (throw e) s = rw (report_lem (parse_failed e) s) refl
    bridged_receive_lem (ok event) s = bridged_handler_lem _ _

    -- With a sink of errors that does not throw, the buses of Redis, Kafka, NATS and AWS do the
    -- same with a message: the listener returns, whatever the message and whatever the handler
    -- does; a message that is no event reaches no handler and is reported, and an event reaches
    -- the handler exactly once, whose error is reported. The listeners of Redis and NATS return
    -- before the handler is called, which the chain behind them does.
    pub buses_deliver_alike :
        (message : Text) (s : BusState World)
        → let delivered : BusState World = deliver (parse env message) s in
          ((PubSub.listener env message >>= PubSub.chain env) s ≡ (ok tt, delivered))
          × (Kafka.each_message env (some message) s ≡ (ok tt, delivered))
          × ((Nats.callback env none message >>= Nats.chain env) s ≡ (ok tt, delivered))
          × (Aws.bridged env (text message) s ≡ (ok tt, delivered))
          × ((PubSub.listener env message s).1.handled ≡ s.handled)
          × ((Nats.callback env none message s).1.handled ≡ s.handled)
    unfolding PubSub.listener Kafka.each_message Nats.callback Aws.bridged parse
    buses_deliver_alike message s =
        let (heard, silent) = listener_receive_lem (parse env message) s in
        let (called, calm) = callback_receive_lem (parse env message) s in
        (
          heard,
          each_message_receive_lem (parse env message) s,
          called,
          bridged_receive_lem (parse env message) s,
          silent,
          calm,
        )
