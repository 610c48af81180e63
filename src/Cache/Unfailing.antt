-- ===== src/Cache/Unfailing.antt =====
-- What leaves the invalidations of packages/core/src/cache.ts, in fail-open and fail-closed caches.
pub mod Outcomes
use safecache.Base.{
  ℕ, ◌≡◌, ◌≢◌, refl, Bool, true, false, not, ◌||◌, Option, none, some, List, [], ◌∷◌, if◌then◌else◌,
  arith,
}
use safecache.Text.{Text}
use safecache.Result.{Result, ok, throw}
use safecache.Cache.Types.{
  Error, CacheEvent, EventType, CacheLayer, CacheOptions, CacheState, Env, Fetched, Operation,
}
use safecache.Cache.Exec.{Exec, pure, modify, attempt, ◌>>=◌, ◌>>◌}
use safecache.Cache.Exec.Rules.{
  Throws, Throws-bind, Throws-if, Throws-modify, Throws-pure, throws_rules,
}
use safecache.Cache.Calls.{emit, await, record_error}
use safecache.Cache.Guarded.{
  settle_delete, delete_layer, delete_from, delete_scoped_key, read_or_empty, safe_tag_index_read,
  done_or_recorded, safe_tag_index_operation,
}
use safecache.Cache.Store.{bump}
use safecache.Cache.Distributed.{make_event, settle_publish, publish_distributed_event}
use safecache.Cache.Invalidate.{
  remove_key_from, remove_tag_from, count_invalidation, invalidate_key_internal, add_all,
  collect_keys, drop_keys, invalidate_tag_internal, invalidate_keys, invalidate_tags, mutate,
}
use safecache.Cache.FailOpen.{
  emit-Safe, record_error-Safe, clock_now-Safe, emit_latency-Safe, call_rules,
}

module _ {World Raw V : Type 0} (env : Env World Raw V) (options : CacheOptions)
    (P : Error → Type 0) where
  settle_delete-Quiet :
      (key : Text) (tenant : Option Text) (r : Result Error (Unit {0}))
      → Throws P (settle_delete env options key tenant r)
  unfolding settle_delete
  settle_delete-Quiet key tenant (ok _) = search call_rules
  settle_delete-Quiet key tenant (throw e) = search call_rules

  delete_layer-Quiet :
      (layer : CacheLayer) (k key : Text) (tenant : Option Text)
      → Throws P (delete_layer env options layer k key tenant)
  unfolding delete_layer
  delete_layer-Quiet layer k key tenant = search (call_rules, settle_delete-Quiet) depth 8

  delete_from-Quiet :
      (k key : Text) (tenant : Option Text) (layers : List CacheLayer)
      → Throws P (delete_from env options k key tenant layers)
  unfolding delete_from
  delete_from-Quiet k key tenant [] = search call_rules
  delete_from-Quiet k key tenant (layer ∷ layers) =
      Throws-bind _ _ (delete_layer-Quiet layer k key tenant)
        (λ _. delete_from-Quiet k key tenant layers)

  delete_scoped_key-Quiet :
      (k : Text) (key tenant : Option Text) → Throws P (delete_scoped_key env options k key tenant)
  unfolding delete_scoped_key
  delete_scoped_key-Quiet k key tenant = delete_from-Quiet k _ tenant options.layers

  done_or_recorded-Quiet :
      (o : Operation) (r : Result Error (Unit {0})) → Throws P (done_or_recorded env options o r)
  unfolding done_or_recorded
  done_or_recorded-Quiet o (ok _) = search call_rules
  done_or_recorded-Quiet o (throw e) = search call_rules

  tag_operation-Quiet :
      (o : Operation) (index : Option ℕ) (task : ℕ → World → Result Error (Unit {0}) × World)
      → Throws P (safe_tag_index_operation env options o index task)
  unfolding safe_tag_index_operation
  tag_operation-Quiet o none task = search call_rules
  tag_operation-Quiet o (some index) task = search (call_rules, done_or_recorded-Quiet) depth 8

  read_or_empty-Quiet : (r : Result Error (List Text)) → Throws P (read_or_empty env options r)
  unfolding read_or_empty
  read_or_empty-Quiet (ok keys) = search call_rules
  read_or_empty-Quiet (throw e) = search call_rules

  tag_read-Quiet :
      (index : Option ℕ) (task : ℕ → World → Result Error (List Text) × World)
      → Throws P (safe_tag_index_read env options index task)
  unfolding safe_tag_index_read
  tag_read-Quiet none task = search call_rules
  tag_read-Quiet (some index) task = search (call_rules, read_or_empty-Quiet) depth 8

  bump-Quiet : (k : Text) → Throws P (bump env options k)
  unfolding bump
  bump-Quiet k = search call_rules

  count-Quiet : Throws P (count_invalidation env options)
  unfolding count_invalidation
  count-Quiet = search call_rules

  remove_key_from-Quiet :
      (k : Text) (tenant : Option Text) (layers : List CacheLayer)
      → Throws P (remove_key_from env options k tenant layers)
  unfolding remove_key_from
  remove_key_from-Quiet k tenant [] = search call_rules
  remove_key_from-Quiet k tenant (layer ∷ layers) =
      Throws-bind _ _ (tag_operation-Quiet _ layer.tag_index _)
        (λ _. remove_key_from-Quiet k tenant layers)

  remove_tag_from-Quiet :
      (scope tag : Text) (layers : List CacheLayer)
      → Throws P (remove_tag_from env options scope tag layers)
  unfolding remove_tag_from
  remove_tag_from-Quiet scope tag [] = search call_rules
  remove_tag_from-Quiet scope tag (layer ∷ layers) =
      Throws-bind _ _ (tag_operation-Quiet _ layer.tag_index _)
        (λ _. remove_tag_from-Quiet scope tag layers)

  make_event-Quiet :
      (kind : EventType) (key tag tenant : Option Text)
      → Throws P (make_event env options kind key tag tenant)
  unfolding make_event
  make_event-Quiet kind key tag tenant = search call_rules depth 8

  settle_publish-Quiet : (r : Result Error (Unit {0})) → Throws P (settle_publish env options r)
  unfolding settle_publish
  settle_publish-Quiet (ok _) = search call_rules
  settle_publish-Quiet (throw e) = search call_rules

  publish-Quiet :
      (kind : EventType) (key tag tenant : Option Text)
      → Throws P (publish_distributed_event env options kind key tag tenant)
  unfolding publish_distributed_event
  publish-Quiet kind key tag tenant =
      search (call_rules, make_event-Quiet, settle_publish-Quiet) depth 8

  pub invalidate_key-Quiet :
      (key : Text) (tenant : Option Text) (publish : Bool)
      → Throws P (invalidate_key_internal env options key tenant publish)
  unfolding invalidate_key_internal
  invalidate_key-Quiet key tenant publish =
      search
        (
          call_rules, bump-Quiet, delete_scoped_key-Quiet, remove_key_from-Quiet, count-Quiet,
          publish-Quiet,
        )
        depth 12

  collect_keys-Quiet :
      (scope tag : Text) (keys : List Text) (layers : List CacheLayer)
      → Throws P (collect_keys env options scope tag keys layers)
  unfolding collect_keys
  collect_keys-Quiet scope tag keys [] = search call_rules
  collect_keys-Quiet scope tag keys (layer ∷ layers) =
      Throws-bind _ _ (tag_read-Quiet layer.tag_index _)
        (λ indexed. collect_keys-Quiet scope tag (add_all env options keys indexed) layers)

  drop_keys-Quiet :
      (tenant : Option Text) (keys : List Text) → Throws P (drop_keys env options tenant keys)
  unfolding drop_keys
  drop_keys-Quiet tenant [] = search call_rules
  drop_keys-Quiet tenant (key ∷ keys) = Throws-bind _ _ (bump-Quiet key) (λ _.
      Throws-bind _ _ (delete_scoped_key-Quiet key none tenant) (λ _. drop_keys-Quiet tenant keys))

  pub invalidate_tag-Quiet :
      (tag : Text) (tenant : Option Text) (publish : Bool)
      → Throws P (invalidate_tag_internal env options tag tenant publish)
  unfolding invalidate_tag_internal
  invalidate_tag-Quiet tag tenant publish =
      search
        (
          call_rules, collect_keys-Quiet, drop_keys-Quiet, remove_tag_from-Quiet, count-Quiet,
          publish-Quiet,
        )
        depth 12

  pub invalidate_keys-Quiet :
      (tenant : Option Text) (keys : List Text) → Throws P (invalidate_keys env options tenant keys)
  unfolding invalidate_keys
  invalidate_keys-Quiet tenant [] = search call_rules
  invalidate_keys-Quiet tenant (key ∷ keys) =
      Throws-bind _ _ (invalidate_key-Quiet key tenant true)
        (λ _. invalidate_keys-Quiet tenant keys)

  pub invalidate_tags-Quiet :
      (tenant : Option Text) (tags : List Text) → Throws P (invalidate_tags env options tenant tags)
  unfolding invalidate_tags
  invalidate_tags-Quiet tenant [] = search call_rules
  invalidate_tags-Quiet tenant (tag ∷ tags) =
      Throws-bind _ _ (invalidate_tag-Quiet tag tenant true)
        (λ _. invalidate_tags-Quiet tenant tags)
