-- ===== src/Buses/Settled.antt =====
-- The answers of packages/rabbitmq/src/index.ts to the broker.
use safecache.Base.{◌≡◌, refl, Bool, false, ◌∷◌}
use safecache.Text.{Text}
use safecache.Result.{Result, ok, throw}
use safecache.Cache.Types.{Error}
use safecache.Cache.Exec.{lift, update, attempt, modify, ◌>>=◌}
use safecache.EventShape.{Value, ParseError}
use safecache.Buses.{
  BusEnv, BusState, parse_failed, handler_failed, Settlement, acked, nacked, call, parse, handle,
}
use safecache.Buses.RabbitMq.{settle, settle_handler, receive, dispatch}
use safecache.Buses.Deliveries.{IsQuiet, report_lem, deliver, note, note_failure, settlement_for}

module _ {World : Type 0} (env : BusEnv World) (quiet : IsQuiet env)
    (answers : (x : Settlement) (w : World) → (env.answer x w).0 ≡ ok tt) where
  settle_lem :
      (x : Settlement) (s : BusState World)
      → settle env x s
        ≡ (ok tt, record s { settled = x ∷ s.settled; world = (env.answer x s.world).1 })
  unfolding settle call modify update lift ◌>>=◌
  settle_lem x s = rw (answers x s.world) refl

  -- what a state behind a delivery has in common with the description of it
  pub record Settles (x : Settlement) (before expected : BusState World)
      (after : Result Error (Unit {0}) × BusState World) : Type 0 where
    pub returns : after.0 ≡ ok tt
    pub settled : after.1.settled ≡ (x ∷ before.settled)
    pub handled : after.1.handled ≡ expected.handled
    pub reported : after.1.reported ≡ expected.reported

  settle_handler-Settles :
      (requeue : Bool) (r : Result Error (Unit {0})) (s : BusState World)
      → Settles
          (elim r [ ok _ ↦ acked | throw e ↦ nacked requeue ])
          s
          (note_failure env r s)
          (settle_handler env requeue r s)
  unfolding settle_handler note_failure note ◌>>=◌
  settle_handler-Settles requeue (ok tt) s =
      rw (settle_lem acked s)
        (record { returns = refl; settled = refl; handled = refl; reported = refl })
  settle_handler-Settles requeue (throw e) s = rw (settle_lem (nacked requeue) s) (
      rw (report_lem env quiet (handler_failed e) _)
        (record { returns = refl; settled = refl; handled = refl; reported = refl }))

  receive-Settles :
      (requeue : Bool) (r : Result ParseError Value) (s : BusState World)
      → Settles (settlement_for env requeue r s.world) s (deliver env r s) (receive env requeue r s)
  unfolding receive deliver note settlement_for handle call modify update lift attempt ◌>>=◌
  receive-Settles requeue (throw e) s = rw (settle_lem (nacked false) s) (
      rw (report_lem env quiet (parse_failed e) _)
        (record { returns = refl; settled = refl; handled = refl; reported = refl }))
  receive-Settles requeue (ok event) s =
      let h =
        settle_handler-Settles requeue (env.handler event s.world).0
          (record s { handled = event ∷ s.handled; world = (env.handler event s.world).1 }) in
      record {
        returns = h.returns;
        settled = h.settled;
        handled = h.handled;
        reported = h.reported;
      }

  -- With a sink of errors and a channel that do not throw, the consumer of RabbitMQ answers each
  -- delivery exactly once and returns: it acknowledges it if it was an event whose handler
  -- succeeded, puts it back if the handler failed and that is asked for, and drops it otherwise.
  -- The handler and the sink see what they see with the other buses.
  pub dispatch-Settles :
      (requeue : Bool) (message : Text) (s : BusState World)
      → Settles
          (settlement_for env requeue (parse env message) s.world)
          s
          (deliver env (parse env message) s)
          (dispatch env requeue message s)
  unfolding dispatch
  dispatch-Settles requeue message s = receive-Settles requeue (parse env message) s
