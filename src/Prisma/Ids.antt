-- ===== src/Prisma/Ids.antt =====
-- The ids and tags of a mutation in packages/prisma/src/index.ts.
use safecache.Base.{
  ℕ, ltb, length, Bool, true, false, not, ◌&&◌, Option, none, some, List, [], ◌∷◌, ◌++◌,
  if◌then◌else◌,
}
use safecache.Text.{Text, codes}
use safecache.Result.{Result, ok, ◌>>=◌}
use safecache.Cache.Types.{Error}

-- A JavaScript value. A property that is absent and one that is undefined are the same here, a
-- bigint is a number.
pub data Value : Type 0 where
  missing other : Value
  string : Text → Value
  number : ℕ → Value
  object : (Text → Value) → Value

pub data PrismaEntityId : Type 0 where
  text_id : Text → PrismaEntityId
  number_id : ℕ → PrismaEntityId

-- The resolvers are the caller's own functions, and may throw.
pub record PrismaTagOptions : Type 0 where
  pub model_tag : Option (Text → Result Error Text)
  pub entity_tag : Option (Text → Text → Result Error Text)
  pub id_field : Option (List Text)
  pub id_extractor : Option (Value → Value → Result Error (List PrismaEntityId))
  pub propagate_invalidation_errors : Bool

unfoldable pub entity_id : Value → Option PrismaEntityId
entity_id (string t) = some (text_id t)
entity_id (number n) = some (number_id n)
entity_id missing = none
entity_id other = none
entity_id (object fields) = none

-- `asRecord`
unfoldable pub as_record : Value → Option (Text → Value)
as_record (object fields) = some fields
as_record missing = none
as_record other = none
as_record (string t) = none
as_record (number n) = none

-- `a ?? b`
unfoldable pub first_of : Option PrismaEntityId → Option PrismaEntityId → Option PrismaEntityId
first_of none b = b
first_of (some a) b = some a

-- `record?.name`
unfoldable pub property : Option (Text → Value) → Text → Value
property none name = missing
property (some fields) name = fields name

unfoldable pub infer_id_from_value : Value → Option PrismaEntityId
infer_id_from_value value = entity_id (property (as_record value) (codes "id"))

unfoldable pub infer_id_from_args : Value → Option PrismaEntityId
infer_id_from_args args =
    first_of (infer_id_from_value (property (as_record args) (codes "where"))) (
      first_of (infer_id_from_value (property (as_record args) (codes "data")))
        (infer_id_from_value args))

abbrev pub is_missing : Value → Bool
is_missing missing = true
is_missing other = false
is_missing (string t) = false
is_missing (number n) = false
is_missing (object fields) = false

-- `fields.every((field) => field in wrapper)`
unfoldable pub has_all : List Text → (Text → Value) → Bool
has_all [] wrapper = true
has_all (field ∷ fields) wrapper = not (is_missing (wrapper field)) && has_all fields wrapper

unfoldable pub join : Text → List Text → Text
join separator [] = []
join separator (t ∷ []) = t
join separator (t ∷ u ∷ ts) = t ++ (separator ++ join separator (u ∷ ts))

unfoldable pub wrapper_or : List Text → (Text → Value) → Option (Text → Value) → Text → Value
wrapper_or fields record_fields none = record_fields
wrapper_or fields record_fields (some wrapper) =
    if has_all fields wrapper then wrapper else record_fields

unfoldable pub compound_source : (Text → Value) → List Text → Text → Value
compound_source record_fields fields =
    if ltb (length fields) 2
    then record_fields
    else wrapper_or fields record_fields (as_record (record_fields (join (codes "_") fields)))

unfoldable pub with_first :
    Option PrismaEntityId → Option (List PrismaEntityId) → Option (List PrismaEntityId)
with_first none ids = none
with_first (some id) none = none
with_first (some id) (some ids) = some (id ∷ ids)

-- the ids in these fields, if each holds one
unfoldable pub ids_in : (Text → Value) → List Text → Option (List PrismaEntityId)
ids_in source [] = some []
ids_in source (field ∷ fields) = with_first (entity_id (source field)) (ids_in source fields)

-- `slice(1)`
unfoldable pub drop_first : List Text → List Text
drop_first [] = []
drop_first (t ∷ ts) = ts

module _ (number_text : ℕ → Text) where
  -- `String(id)`
  unfoldable pub id_text : PrismaEntityId → Text
  id_text (text_id t) = t
  id_text (number_id n) = number_text n

  unfoldable pub id_texts : List PrismaEntityId → List Text
  id_texts [] = []
  id_texts (id ∷ ids) = id_text id ∷ id_texts ids

  -- one id stays what it is, several are joined
  unfoldable pub joined : Option (List PrismaEntityId) → Option PrismaEntityId
  joined none = none
  joined (some (id ∷ [])) = some id
  joined (some []) = some (text_id [])
  joined (some (id ∷ id' ∷ ids)) = some (text_id (join (codes ":") (id_texts (id ∷ id' ∷ ids))))

  unfoldable pub composite_id_from : Option (Text → Value) → List Text → Option PrismaEntityId
  composite_id_from none fields = none
  composite_id_from (some record_fields) fields =
      joined (ids_in (compound_source record_fields fields) fields)

  unfoldable pub to_list : Option PrismaEntityId → List PrismaEntityId
  to_list none = []
  to_list (some id) = id ∷ []

  -- `args.where`, `args.data`, `args` and the result, the first that has the fields
  unfoldable pub infer_ids_from_field : Value → Value → List Text → List PrismaEntityId
  infer_ids_from_field args result [] = []
  infer_ids_from_field args result (field ∷ fields) =
      let id : Value → Option PrismaEntityId =
        λ source. composite_id_from (as_record source) (field ∷ fields) in
      to_list (
        first_of (id (property (as_record args) (codes "where"))) (
          first_of (id (property (as_record args) (codes "data")))
            (first_of (id args) (id result))))

  unfoldable pub infer_by_field : Value → Value → Option (List Text) → List PrismaEntityId
  infer_by_field args result (some fields) = infer_ids_from_field args result fields
  infer_by_field args result none =
      to_list (first_of (infer_id_from_args args) (infer_id_from_value result))

  module _ (options : PrismaTagOptions) where
    unfoldable pub infer_prisma_mutation_id : Value → Value → Result Error (List PrismaEntityId)
    infer_prisma_mutation_id args result = elim options.id_extractor [
      | some extract ↦ extract args result
      | none ↦ ok (infer_by_field args result options.id_field)
    ]

    unfoldable pub model_tag_of : Text → Result Error Text
    model_tag_of model = elim options.model_tag [ none ↦ ok model | some tag ↦ tag model ]

    unfoldable pub entity_tag_of : Text → Text → Result Error Text
    entity_tag_of model id = elim options.entity_tag [
      | none ↦ ok (model ++ (codes ":" ++ id))
      | some tag ↦ tag model id
    ]

    -- the tags behind that of the model: an empty id has none
    unfoldable pub entity_tags_of : Text → Text → Result Error (List Text)
    entity_tags_of model [] = ok []
    entity_tags_of model (c ∷ id) = do tag ← entity_tag_of model (c ∷ id); ok (tag ∷ [])

    unfoldable pub prisma_model_tags : Text → Option PrismaEntityId → Result Error (List Text)
    prisma_model_tags model none = do tag ← model_tag_of model; ok (tag ∷ [])
    prisma_model_tags model (some id) = do
      tag ← model_tag_of model
      tags ← entity_tags_of model (id_text id)
      ok (tag ∷ tags)

    -- `prismaModelTags(model, id, options).slice(1)` of each id
    unfoldable pub all_entity_tags : Text → List PrismaEntityId → Result Error (List Text)
    all_entity_tags model [] = ok []
    all_entity_tags model (id ∷ ids) = do
      tags ← prisma_model_tags model (some id)
      rest ← all_entity_tags model ids
      ok (drop_first tags ++ rest)

    -- the tags of the model, and those of the entities
    unfoldable pub mutation_tags : Text → List PrismaEntityId → Result Error (List Text × List Text)
    mutation_tags model ids = do
      entity_tags ← all_entity_tags model ids
      model_tags ← prisma_model_tags model none
      ok (model_tags, entity_tags)
