-- ===== src/Tests/Delivering.antt =====
-- The theorems on the event buses applied to concrete inputs.
use safecache.Base.{ℕ, ◌+◌, ◌≡◌, refl, true, none, some, []}
use safecache.Text.{codes}
use safecache.Result.{ok, throw}
use safecache.Cache.Exec.{◌>>=◌}
use safecache.Tests.Sample.{down}
use safecache.Tests.Events.{to_sent}
use safecache.Buses.{BusEnv, BusState, parse}
use safecache.Buses.PubSub
use safecache.Buses.Kafka
use safecache.Buses.Nats
use safecache.Buses.Aws
use safecache.EventShape.{text}
use safecache.Buses.RabbitMq.{dispatch}
use safecache.Buses.Deliveries.{deliver, settlement_for, buses_deliver_alike}
use safecache.Buses.Settled.{Settles, dispatch-Settles}

-- a handler that fails
abbrev bus : BusEnv ℕ
bus = record {
  json_parse = to_sent;
  stringify = λ event. codes "{}";
  handler = λ event w. (throw down, w + 1);
  on_error = λ r w. (ok tt, w + 10);
  send = λ message w. (ok tt, w);
  connect = λ w. (ok tt, w);
  flush = none;
  jetstream = none;
  answer = λ x w. (ok tt, w);
}

abbrev waiting : BusState ℕ
waiting = record { world = 0; handled = []; reported = []; settled = [] }

buses_deliver_alike_example :
    let delivered : BusState ℕ = deliver bus (parse bus (codes "{}")) waiting in
    ((PubSub.listener bus (codes "{}") >>= PubSub.chain bus) waiting ≡ (ok tt, delivered))
    × (Kafka.each_message bus (some (codes "{}")) waiting ≡ (ok tt, delivered))
    × ((Nats.callback bus none (codes "{}") >>= Nats.chain bus) waiting ≡ (ok tt, delivered))
    × (Aws.bridged bus (text (codes "{}")) waiting ≡ (ok tt, delivered))
    × ((PubSub.listener bus (codes "{}") waiting).1.handled ≡ [])
    × ((Nats.callback bus none (codes "{}") waiting).1.handled ≡ [])
buses_deliver_alike_example = buses_deliver_alike bus (λ r w. refl) (codes "{}") waiting

dispatch-Settles_example :
    Settles bus
      (λ r w. refl)
      (λ x w. refl)
      (settlement_for bus true (parse bus (codes "{}")) 0)
      waiting
      (deliver bus (parse bus (codes "{}")) waiting)
      (dispatch bus true (codes "{}") waiting)
dispatch-Settles_example =
    dispatch-Settles bus (λ r w. refl) (λ x w. refl) true (codes "{}") waiting
