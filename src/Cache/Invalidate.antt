-- ===== src/Cache/Invalidate.antt =====
-- Invalidation in packages/core/src/cache.ts: by key, by tag, through `mutate`, and by an event of
-- another process.
use safecache.Base.{
  ◌+◌, Bool, true, false, not, ◌||◌, Option, none, some, List, [], ◌∷◌, if◌then◌else◌,
}
use safecache.Text.{Text, text_eq, text_has_eq}
use safecache.Result.{Result}
use safecache.JsSet
use safecache.Keys.{scope_key, scope_prefix}
use safecache.Cache.Types.{
  Error, CacheEvent, EventType, invalidate_key, invalidate_tag, CacheLayer, CacheOptions,
  CacheState, Env, Fetched, on_remove_key, on_remove_tag, invalidated,
}
use safecache.Cache.Exec.{Exec, pure, modify, ◌>>=◌, ◌>>◌}
use safecache.Cache.Calls.{emit, await}
use safecache.Cache.Guarded.{delete_scoped_key, safe_tag_index_read, safe_tag_index_operation}
use safecache.Cache.Store.{bump}
use safecache.Cache.Distributed.{publish_distributed_event, verify_incoming_event, has_seen_event}

module _ {World Raw V : Type 0} (env : Env World Raw V) (options : CacheOptions) where
  unfoldable pub remove_key_from :
      Text → Option Text → List CacheLayer → Exec (CacheState World V) (Unit {0})
  remove_key_from scoped_key tenant [] = pure tt
  remove_key_from scoped_key tenant (layer ∷ layers) = do
    safe_tag_index_operation env options on_remove_key layer.tag_index
        (λ index. env.remove_key index (scope_prefix options.namespace tenant) scoped_key)
    remove_key_from scoped_key tenant layers

  unfoldable pub remove_tag_from :
      Text → Text → List CacheLayer → Exec (CacheState World V) (Unit {0})
  remove_tag_from scope tag [] = pure tt
  remove_tag_from scope tag (layer ∷ layers) = do
    safe_tag_index_operation env options on_remove_tag layer.tag_index
        (λ index. env.remove_tag index scope tag)
    remove_tag_from scope tag layers

  unfoldable pub count_invalidation : Exec (CacheState World V) (Unit {0})
  count_invalidation =
      modify
        (λ s. record s { stats = record s.stats { invalidations = s.stats.invalidations + 1 } })

  unfoldable pub invalidate_key_internal :
      Text → Option Text → Bool → Exec (CacheState World V) (Unit {0})
  invalidate_key_internal key tenant publish = do
    let scoped_key = scope_key options.namespace key tenant
    bump env options scoped_key
    delete_scoped_key env options scoped_key (some key) tenant
    remove_key_from scoped_key tenant options.layers
    count_invalidation
    emit (invalidated (some key) none tenant)
    if publish
        then publish_distributed_event env options invalidate_key (some key) none tenant
        else pure tt

  unfoldable pub add_all : List Text → List Text → List Text
  add_all keys [] = keys
  add_all keys (k ∷ ks) = add_all (JsSet.add keys k) ks

  -- the set of the keys that the layers' indexes hold under the tag
  unfoldable pub collect_keys :
      Text → Text → List Text → List CacheLayer → Exec (CacheState World V) (List Text)
  collect_keys scope tag keys [] = pure keys
  collect_keys scope tag keys (layer ∷ layers) = do
    indexed ←
        safe_tag_index_read env options layer.tag_index
          (λ index. env.get_keys_by_tag index scope tag)
    collect_keys scope tag (add_all keys indexed) layers

  unfoldable pub drop_keys : Option Text → List Text → Exec (CacheState World V) (Unit {0})
  drop_keys tenant [] = pure tt
  drop_keys tenant (key ∷ keys) = do
    bump env options key
    delete_scoped_key env options key none tenant
    drop_keys tenant keys

  unfoldable pub invalidate_tag_internal :
      Text → Option Text → Bool → Exec (CacheState World V) (Unit {0})
  invalidate_tag_internal tag tenant publish = do
    let scope = scope_prefix options.namespace tenant
    keys ← collect_keys scope tag [] options.layers
    drop_keys tenant keys
    remove_tag_from scope tag options.layers
    count_invalidation
    emit (invalidated none (some tag) tenant)
    if publish
        then publish_distributed_event env options invalidate_tag none (some tag) tenant
        else pure tt

  unfoldable pub invalidate_keys : Option Text → List Text → Exec (CacheState World V) (Unit {0})
  invalidate_keys tenant [] = pure tt
  invalidate_keys tenant (key ∷ keys) = do
    invalidate_key_internal key tenant true
    invalidate_keys tenant keys

  unfoldable pub invalidate_tags : Option Text → List Text → Exec (CacheState World V) (Unit {0})
  invalidate_tags tenant [] = pure tt
  invalidate_tags tenant (tag ∷ tags) = do
    invalidate_tag_internal tag tenant true
    invalidate_tags tenant tags

  -- `mutate`: the action first; its keys and tags only if it did not throw
  unfoldable pub mutate :
      (World → Result Error (Fetched V) × World)
      → List Text
      → List Text
      → Option Text
      → Exec (CacheState World V) (Fetched V)
  mutate action keys tags tenant = do
    result ← await env action
    invalidate_keys tenant keys
    invalidate_tags tenant tags
    pure result

  unfoldable pub apply_event :
      EventType → Option Text → Option Text → Option Text → Exec (CacheState World V) (Unit {0})
  apply_event invalidate_key (some key) tag tenant = invalidate_key_internal key tenant false
  apply_event invalidate_tag key (some tag) tenant = invalidate_tag_internal tag tenant false
  apply_event _ _ _ _ = pure tt

  -- an event that is meant for this cache, past its verification
  unfoldable pub deliver_once : CacheEvent → Exec (CacheState World V) (Unit {0})
  deliver_once event = do
    seen ← has_seen_event env options event.id
    if seen then pure tt else apply_event event.kind event.key event.tag event.tenant

  -- the handler that the cache subscribes with
  unfoldable pub on_event : CacheEvent → Exec (CacheState World V) (Unit {0})
  on_event event =
      if not (text_eq event.namespace options.namespace) || text_eq event.source options.source
      then pure tt
      else do
        verified ← verify_incoming_event env options event
        if verified then deliver_once event else pure tt
