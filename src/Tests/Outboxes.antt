-- ===== src/Tests/Outboxes.antt =====
-- The theorems on the outbox applied to concrete inputs.
use safecache.Base.{
  ℕ, ◌+◌, ◌≤◌, ◌≡◌, ◌++◌, refl, false, none, some, List, [], ◌∷◌, length, All, arith, ltb,
  nat_has_eq,
}
use safecache.Text.{codes}
use safecache.JsSet
use safecache.Result.{ok, throw}
use safecache.Tests.Sample.{down}
use safecache.Outbox.Rows.{Row, is_claimable, claimed_rows, stamp}
use safecache.Outbox.Payload.{Payload, scalar, object, text}
use safecache.Outbox.Database.{
  OutboxEnv, OutboxState, PostgresOutboxOptions, PollResult, done, no_rows,
}
use safecache.Outbox.Worker.{dispatch}
use safecache.Outbox.Loop.{PluginState}
use safecache.Outbox.Lease.{leases_exclude}
use safecache.Outbox.Poison.{fail_all, poison_row_retires}
use safecache.Outbox.Delivery.{Handled}
use safecache.Outbox.Count.{Counts, dispatch_reports_all}

-- a database and a JSON parser that work, and a cache that is down
abbrev broken : OutboxEnv ℕ
broken = record {
  date_now = λ w. (w, w + 1);
  db_now = λ w. (w, w + 1);
  reply = λ w. (done, w);
  locked = λ w id. false;
  others = λ table. table;
  invalidate = λ key tenant w. (throw down, w + 1);
  invalidate_by_tag = λ tag tenant w. (ok tt, w + 1);
  timer_wins = λ ms w. false;
  json_parse = λ t. ok scalar;
  message = λ e. codes "down";
  id_text = λ id. codes "1";
}

abbrev three_tries : PostgresOutboxOptions
three_tries = record {
  batch_size = some 2;
  map_row = none;
  max_retries = some 3;
  cache_timeout_ms = none;
  claim_ms = none;
  propagate_invalidation_errors = none;
  poll_interval_ms = some 1000;
  poll_backoff_base_ms = none;
  poll_backoff_max_ms = none;
}

-- a row that asks for one key
abbrev row : ℕ → Row Payload
row id = record {
  id = id;
  payload = object (λ name. text (codes "k" ++ id ∷ []));
  created_at = 10 + id;
  processed_at = none;
  claimed_at = none;
  retry_count = 0;
  last_error = none;
}

abbrev table : List (Row Payload)
table = row 1 ∷ row 2 ∷ row 3 ∷ []

abbrev queue : OutboxState ℕ
queue = record { world = 50000; table = table; in_flight = false; notified = []; emitted = [] }

leases_exclude_example :
    let rows : List (Row Payload) =
      claimed_rows 2 none 100 (λ id. false) (stamp (1 ∷ 2 ∷ []) 150 table) in
    (length rows ≤ 2) × All (λ r. JsSet.has (1 ∷ 2 ∷ []) r.id ≡ false) rows
leases_exclude_example =
    leases_exclude 2 none 100 150 (λ id. false) (1 ∷ 2 ∷ []) table (omega arith)

poison_row_retires_example :
    is_claimable
      (some 3)
      100
      (fail_all broken three_tries ((10, down) ∷ (20, down) ∷ (30, down) ∷ []) (row 1))
    ≡ ltb (0 + 3) 3
poison_row_retires_example =
    poison_row_retires broken three_tries 3 100 10 down ((20, down) ∷ (30, down) ∷ []) (row 1) refl
      refl (omega arith)

-- the payloads stay with their ids
abbrev Holds : ℕ → Payload → ℕ → Type 0
Holds id payload attempts = payload ≡ (row id).payload

-- a row of this id and its payload was handled
abbrev WasHandled : ℕ → Type 0
WasHandled id =
    (r : Row Payload) × (r.id ≡ id) × (r.payload ≡ (row id).payload) × Handled broken three_tries r

dispatch_reports_all_example :
    (after : PollResult) × ((dispatch broken three_tries table no_rows queue).0 ≡ ok after)
    × Counts 3 no_rows after
dispatch_reports_all_example = dispatch_reports_all broken three_tries refl table no_rows queue

abbrev ticking : PluginState
ticking = record { timer = none; stopped = false; consecutive_failures = 4 }
