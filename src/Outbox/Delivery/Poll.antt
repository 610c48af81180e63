-- ===== src/Outbox/Delivery/Poll.antt =====
-- A poll of the outbox processes no row without a reason.
use safecache.Base.{◌≡◌, true, Option, none, some, nat_has_eq}
use safecache.Result.{Result}
use safecache.Outbox.Rows.{Row}
use safecache.Outbox.Payload.{Payload}
use safecache.Outbox.Database.{OutboxEnv, PostgresOutboxOptions, OutboxFailure, parse, cache}
use safecache.Outbox.Worker.{is_exhausted}
use safecache.Outbox.Delivery.{Handled}

module _ {World : Type 0} (env : OutboxEnv World) (options : PostgresOutboxOptions) where
  -- what is known of a row behind Phase A
  abbrev Outcome : Row Payload → Option OutboxFailure → Type 0
  Outcome row none = Handled env options row
  Outcome row (some (parse e)) = Handled env options row
  Outcome row (some (cache e)) =
      is_exhausted env options row.retry_count ≡ true → Handled env options row
