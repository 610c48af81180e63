-- ===== src/Tests/Streams.antt =====
-- The theorems on the change streams applied to concrete inputs.
use safecache.Base.{ℕ, refl, true, false, none, some, [], ◌∷◌}
use safecache.Text.{codes}
use safecache.JsSet
use safecache.Result.{ok, throw}
use safecache.Tests.Sample.{down}
use safecache.ChangeStreams.Resumable.{StreamError, fields}
use safecache.ChangeStreams.Mapping.{MongoChangeEvent, MongoCollectionConfig, fixed}
use safecache.ChangeStreams.Watch.{
  Reconnect, CollectionState, StreamEnv, handle_stream_error, start_watch, run_reconnect,
}
use safecache.ChangeStreams.Change.{on_change}
use safecache.ChangeStreams.Watch.Live.{
  IsLive, sets_up, then_step, changes, fails, fires, Reachable-IsLive,
}

-- a database that is there and a cache that is down
abbrev streams : StreamEnv ℕ ℕ
streams = record {
  watch = λ token w. (ok tt, w);
  invalidate = λ key tenant w. (throw down, w);
  invalidate_by_tag = λ tag tenant w. (throw down, w);
  on_resume_token = λ token w. (ok tt, w);
  others = λ s. s;
}

abbrev collection : CollectionState ℕ ℕ
collection = record {
  world = 0;
  resume_token = some 7;
  has_stream = false;
  reconnect_timer = none;
  reconnect_attempts = 0;
  is_ok = true;
  last_error = none;
  is_closed = false;
  watched = [];
  reported = [];
}

abbrev users : MongoCollectionConfig ℕ ℕ
users = record {
  id_of = none;
  keys_of = none;
  tags_of = λ document. ok (codes "users" ∷ []);
  tenant = fixed (codes "acme");
  requires_document_for_delete = true;
}

abbrev update : MongoChangeEvent ℕ ℕ
update = record {
  id = some 8;
  operation_type = codes "update";
  full_document = some [];
  document_key = none;
}

abbrev history_lost : StreamError
history_lost = fields none (some 286) [] none none

abbrev reconnect : Reconnect
reconnect = record { enabled = true; initial_delay_ms = 1000; max_delay_ms = 30000; factor = 2 }

-- Set up, a change, a lost history, and the timer.
abbrev again : CollectionState ℕ ℕ
again = run_reconnect streams reconnect (
    handle_stream_error reconnect history_lost
      (on_change streams users false update (start_watch streams reconnect collection)).1)

Reachable-IsLive_example : IsLive reconnect again
Reachable-IsLive_example =
    Reachable-IsLive streams reconnect (λ s live. live) users false again
      (then_step _ _
        (then_step _ _ (then_step _ _ (sets_up collection refl refl) (changes _ update))
          (fails _ history_lost))
        (fires _))
