-- ===== src/Prisma/Mutation.antt =====
-- What a mutation of Prisma leaves behind it.
use safecache.Base.{◌≡◌, false, ◌||◌, List, [], ◌++◌, if◌then◌else◌}
use safecache.Text.{Text, text_has_eq}
use safecache.JsSet
use safecache.JsSet.{has-add}
use safecache.Result.{Result, ok, throw}
use safecache.Cache.Types.{Error}
use safecache.Cache.Exec.{Exec}
use safecache.Prisma.Ids.{Value, PrismaEntityId, PrismaTagOptions, mutation_tags}
use safecache.Prisma.Sync.{PrismaEnv, PrismaState, is_prisma_mutation_operation, ids_of_query}

module _ {World : Type 0} (env : PrismaEnv World) where
  module _ (options : PrismaTagOptions)
      (contained : options.propagate_invalidation_errors ≡ false) where
    -- the tags of the model and of the ids, unless a resolver throws
    tags_for : Text → Result Error (List PrismaEntityId) → Result Error (List Text × List Text)
    tags_for model (throw e) = throw e
    tags_for model (ok ids) = mutation_tags env.number_text options model ids

    -- what is invalidated behind a query that returned this, unless a resolver throws
    pub resolved : Text → Text → Value → Value → Result Error (List Text × List Text)
    resolved model operation args result =
        if is_prisma_mutation_operation operation
        then tags_for model (ids_of_query env options operation args result)
        else ok ([], [])

    -- the resolver's error, or else the result
    abbrev unless_thrown : Result Error (List Text × List Text) → Value → Result Error Value
    unless_thrown (throw e) result = throw e
    unless_thrown (ok tags) result = ok result

    abbrev tags_in : Result Error (List Text × List Text) → List Text
    tags_in (throw e) = []
    tags_in (ok tags) = tags.0 ++ (tags.1 ++ [])

    -- how the caller sees a query of the database that ended like this
    pub query_outcome : Text → Text → Value → Result Error Value → Result Error Value
    query_outcome model operation args (throw e) = throw e
    query_outcome model operation args (ok result) =
        unless_thrown (resolved model operation args result) result

    -- what it invalidates
    pub query_tags : Text → Text → Value → Result Error Value → List Text
    query_tags model operation args (throw e) = []
    query_tags model operation args (ok result) = tags_in (resolved model operation args result)

    -- `m` ends like this, and the cache was asked for these tags and no others.
    EndsWith :
        Result Error Value → List Text → Exec (PrismaState World) Value → PrismaState World → Type 0
    EndsWith outcome tags m s =
        ((m s).0 ≡ outcome)
        × ((t : Text)
            → JsSet.has (m s).1.attempted t ≡ (JsSet.has tags t || JsSet.has s.attempted t))
