-- ===== src/Prisma/Sync.antt =====
-- The calls of createPrismaCacheSync in packages/prisma/src/index.ts. A report that throws is
-- dropped.
use safecache.Base.{
  ℕ, Bool, true, false, not, ◌&&◌, Option, none, some, List, [], ◌∷◌, ◌++◌, if◌then◌else◌,
}
use safecache.Text.{Text, codes, text_has_eq}
use safecache.JsSet
use safecache.Result.{Result, ok, throw}
use safecache.Cache.Types.{Error, rejected}
use safecache.Cache.Exec.{Exec, pure, raise, lift, update, attempt, modify, ◌>>=◌, ◌>>◌}
use safecache.Outbox.Payload.{unique}
use safecache.Prisma.Ids.{
  Value, missing, PrismaEntityId, PrismaTagOptions, infer_prisma_mutation_id, prisma_model_tags,
  mutation_tags,
}

pub data UnmappableReason : Type 0 where
  no_id scope : UnmappableReason

-- The surroundings: the cache's `invalidateByTag` and `String` of a number.
pub record PrismaEnv (World : Type 0) : Type 0 where
  pub invalidate_by_tag : Text → World → Result Error (Unit {0}) × World
  pub number_text : ℕ → Text

-- `attempted` are the tags that the cache was asked for, the last one first; the failures and the
-- mutations without a precise tag are those that were reported.
pub record PrismaState (World : Type 0) : Type 0 where
  pub world : World
  pub attempted : List Text
  pub failures : List (Error × Text)
  pub unmappable : List (Text × UnmappableReason)

abbrev pub mutation_operations : List Text
mutation_operations =
    codes "create"
    ∷ codes "update"
    ∷ codes "upsert"
    ∷ codes "delete"
    ∷ codes "updateMany"
    ∷ codes "deleteMany"
    ∷ []

abbrev pub scoped_mutation_operations : List Text
scoped_mutation_operations = codes "updateMany" ∷ codes "deleteMany" ∷ []

unfoldable pub is_prisma_mutation_operation : Text → Bool
is_prisma_mutation_operation operation = JsSet.has mutation_operations operation

unfoldable pub is_scoped : Text → Bool
is_scoped operation = JsSet.has scoped_mutation_operations operation

abbrev pub is_empty : List Text → Bool
is_empty [] = true
is_empty (t ∷ ts) = false

module _ {World : Type 0} (env : PrismaEnv World) where
  unfoldable pub invalidate_tag : Text → Exec (PrismaState World) (Unit {0})
  invalidate_tag tag = do
    r ← update (λ s.
        let (r, w) = env.invalidate_by_tag tag s.world in
        (r, record s { world = w; attempted = tag ∷ s.attempted }))
    lift r

  -- a failure is reported and collected
  unfoldable pub settle_tag : Text → Result Error (Unit {0}) → Exec (PrismaState World) (List Error)
  settle_tag tag (ok _) = pure []
  settle_tag tag (throw e) = do
    modify (λ s. record s { failures = (e, tag) ∷ s.failures })
    pure (e ∷ [])

  unfoldable pub invalidate_each : List Text → Exec (PrismaState World) (List Error)
  invalidate_each [] = pure []
  invalidate_each (tag ∷ tags) = do
    settled ← attempt (invalidate_tag tag)
    failed ← settle_tag tag settled
    failed' ← invalidate_each tags
    pure (failed ++ failed')

  module _ (options : PrismaTagOptions) where
    unfoldable pub settle_failures : List Error → Exec (PrismaState World) (Unit {0})
    settle_failures [] = pure tt
    settle_failures (e ∷ []) = if options.propagate_invalidation_errors then raise e else pure tt
    settle_failures (e ∷ e' ∷ es) =
        if options.propagate_invalidation_errors
        then raise (rejected (codes "Failed to invalidate one or more Prisma cache tags"))
        else pure tt

    unfoldable pub invalidate_tags : List Text → Exec (PrismaState World) (Unit {0})
    invalidate_tags tags = do failures ← invalidate_each (unique tags); settle_failures failures

    -- the signal that only the tag of the model is invalidated
    unfoldable pub notify_unmappable :
        Text → Bool → List Text → List Text → Exec (PrismaState World) (Unit {0})
    notify_unmappable model force_scope entity_tags explicit_tags =
        if is_empty entity_tags && is_empty explicit_tags
        then modify (λ s. record s {
          unmappable = (model, if force_scope then scope else no_id) ∷ s.unmappable;
        })
        else pure tt

    -- with the tags of the model and those of the entities
    unfoldable pub invalidate_resolved :
        Text → List Text × List Text → List Text → Bool → Exec (PrismaState World) (Unit {0})
    invalidate_resolved model (model_tags, entity_tags) explicit_tags force_scope = do
      notify_unmappable model force_scope entity_tags explicit_tags
      invalidate_tags (model_tags ++ (entity_tags ++ explicit_tags))

    unfoldable pub invalidate_mutation :
        Text → List PrismaEntityId → List Text → Bool → Exec (PrismaState World) (Unit {0})
    invalidate_mutation model ids explicit_tags force_scope = do
      tags ← lift (mutation_tags env.number_text options model ids)
      invalidate_resolved model tags explicit_tags force_scope

    unfoldable pub invalidate :
        Text → Option PrismaEntityId → List Text → Exec (PrismaState World) (Unit {0})
    invalidate model id tags = do
      model_tags ← lift (prisma_model_tags env.number_text options model id)
      invalidate_tags (model_tags ++ tags)

    -- the action and the query run in the world, and may throw
    unfoldable pub run : (World → Result Error Value × World) → Exec (PrismaState World) Value
    run action = do
      r ← update (λ s. let (r, w) = action s.world in (r, record s { world = w }))
      lift r

    unfoldable pub ids_of_mutate :
        Option PrismaEntityId → Value → Result Error (List PrismaEntityId)
    ids_of_mutate (some id) result = ok (id ∷ [])
    ids_of_mutate none result = infer_prisma_mutation_id env.number_text options missing result

    unfoldable pub mutate :
        Text
        → Option PrismaEntityId
        → List Text
        → (World → Result Error Value × World)
        → Exec (PrismaState World) Value
    mutate model id tags action = do
      result ← run action
      ids ← lift (ids_of_mutate id result)
      invalidate_mutation model ids tags false
      pure result

    unfoldable pub ids_of_query : Text → Value → Value → Result Error (List PrismaEntityId)
    ids_of_query operation args result =
        if is_scoped operation
        then ok []
        else infer_prisma_mutation_id env.number_text options args result

    unfoldable pub after_query : Text → Text → Value → Value → Exec (PrismaState World) Value
    after_query model operation args result =
        if not (is_prisma_mutation_operation operation) then pure result else do
          ids ← lift (ids_of_query operation args result)
          invalidate_mutation model ids [] (is_scoped operation)
          pure result

    unfoldable pub handle_query :
        Text → Text → Value → (World → Result Error Value × World) → Exec (PrismaState World) Value
    handle_query model operation args query = do
      result ← run query
      after_query model operation args result
