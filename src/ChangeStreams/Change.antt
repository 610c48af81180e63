-- ===== src/ChangeStreams/Change.antt =====
-- The handler of a change in packages/mongodb-streams/src/index.ts.
use safecache.Base.{Bool, Option, none, some, if◌then◌else◌}
use safecache.Text.{codes}
use safecache.Result.{Result, ok, throw}
use safecache.Cache.Types.{Error, rejected}
use safecache.Cache.Exec.{Exec, pure, raise, lift, update, attempt, modify, ◌>>=◌, ◌>>◌}
use safecache.Outbox.Database.{call_each}
use safecache.ChangeStreams.Mapping.{
  MongoChangeEvent, MongoCollectionConfig, MongoInvalidationPlan, non_empty,
  map_mongo_change_to_invalidation, is_unsafe_delete,
}
use safecache.ChangeStreams.Watch.{CollectionState, StreamEnv, change_failed, notify}

-- MongoUnsafeDeleteError, by its name
abbrev pub unsafe_delete : Error
unsafe_delete = rejected (codes "MongoUnsafeDeleteError")

module _ {World Token : Type 0} (env : StreamEnv World Token) where
  unfoldable pub apply_mongo_invalidation :
      MongoInvalidationPlan → World → Result Error (Unit {0}) × World
  apply_mongo_invalidation plan w =
      let (r, w') = call_each (λ key. env.invalidate key (non_empty plan.tenant)) plan.keys w in
      let rest =
        call_each (λ tag. env.invalidate_by_tag tag (non_empty plan.tenant)) plan.tags w' in
      elim r [ ok _ ↦ rest | throw e ↦ (throw e, w') ]

  -- an awaited call, and what else happens meanwhile
  unfoldable pub await_call :
      (World → Result Error (Unit {0}) × World) → Exec (CollectionState World Token) (Unit {0})
  await_call call = do
    r ← update (λ s. let (r, w) = call s.world in (r, env.others (record s { world = w })))
    lift r

  unfoldable pub advance : Option Token → Exec (CollectionState World Token) (Unit {0})
  advance none = pure tt
  advance (some token) = do
    modify (λ s. record s { resume_token = some token })
    await_call (env.on_resume_token token)

  module _ {V : Type 0} (config : MongoCollectionConfig V Token) (propagate : Bool) where
    unfoldable pub invalidate_for :
        MongoChangeEvent V Token → Exec (CollectionState World Token) (Unit {0})
    invalidate_for change = do
      plan ← lift (map_mongo_change_to_invalidation config change)
      await_call (apply_mongo_invalidation plan)

    unfoldable pub refuse_delete : Exec (CollectionState World Token) (Unit {0})
    refuse_delete =
        if propagate then raise unsafe_delete else modify (notify (change_failed unsafe_delete))

    unfoldable pub handle_change :
        MongoChangeEvent V Token → Exec (CollectionState World Token) (Unit {0})
    handle_change change = do
      if is_unsafe_delete config change then refuse_delete else invalidate_for change
      advance change.id

    unfoldable pub settle_change :
        Result Error (Unit {0}) → Exec (CollectionState World Token) (Unit {0})
    settle_change (ok _) = pure tt
    settle_change (throw e) = modify (notify (change_failed e))

    unfoldable pub on_change :
        MongoChangeEvent V Token → Exec (CollectionState World Token) (Unit {0})
    on_change change = do settled ← attempt (handle_change change); settle_change settled
