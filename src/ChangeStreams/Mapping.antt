-- ===== src/ChangeStreams/Mapping.antt =====
-- What a change of packages/mongodb-streams/src/index.ts invalidates. The resolvers of a collection
-- are parameters, and may throw.
use safecache.Base.{Option, none, some, List, [], ◌∷◌, Bool, true, false, not, ◌&&◌, if◌then◌else◌}
use safecache.Text.{Text, codes, text_eq, text_has_eq}
use safecache.JsMap
use safecache.JsMap.{JsMap}
use safecache.Result.{Result, ok, ◌>>=◌}
use safecache.Cache.Types.{Error}
use safecache.Outbox.Payload.{unique}

-- A document is its fields.
abbrev pub Document : Type 0 → Type 0
Document V = JsMap Text V

pub record MongoChangeEvent (V Token : Type 0) : Type 0 where
  pub id : Option Token
  pub operation_type : Text
  pub full_document : Option (Document V)
  pub document_key : Option (Document V)

pub data TenantSetting (V Token : Type 0) : Type 0 where
  no_tenant : TenantSetting V Token
  fixed : Text → TenantSetting V Token
  resolver :
      (Document V → MongoChangeEvent V Token → Result Error (Option Text)) → TenantSetting V Token

pub record MongoCollectionConfig (V Token : Type 0) : Type 0 where
  pub id_of : Option (Document V → Result Error (Option V))
  pub keys_of : Option (Document V → Result Error (List Text))
  pub tags_of : Document V → Result Error (List Text)
  pub tenant : TenantSetting V Token
  pub requires_document_for_delete : Bool

pub record MongoInvalidationPlan : Type 0 where
  pub keys : List Text
  pub tags : List Text
  pub tenant : Option Text

-- `a ?? b`
unfoldable pub or_else : {A : Type 0} → Option A → Option A → Option A
or_else none b = b
or_else (some a) b = some a

-- `tenant ? { tenant } : {}`
unfoldable pub non_empty : Option Text → Option Text
non_empty none = none
non_empty (some []) = none
non_empty (some (c ∷ t)) = some (c ∷ t)

unfoldable pub missing : {A : Type 0} → Option A → Bool
missing none = true
missing (some d) = false

module _ {V Token : Type 0} (config : MongoCollectionConfig V Token) where
  unfoldable pub id_from : Document V → Result Error (Option V)
  id_from key_document = elim config.id_of [ none ↦ ok none | some id ↦ id key_document ]

  -- the key as a document, with its id under both names
  unfoldable pub with_id : Document V → Option V → Document V
  with_id key_document none = key_document
  with_id key_document (some id) =
      JsMap.set (JsMap.set key_document (codes "_id") id) (codes "id") id

  unfoldable pub key_document_of : Option (Document V) → Document V
  key_document_of none = []
  key_document_of (some d) = d

  unfoldable pub document_for_key : Document V → Result Error (Document V)
  document_for_key key_document = do
    id ← id_from key_document
    ok (
        with_id key_document (
          or_else id
            (or_else (JsMap.get key_document (codes "_id")) (JsMap.get key_document (codes "id")))))

  unfoldable pub document_for_change : MongoChangeEvent V Token → Result Error (Document V)
  document_for_change change = elim change.full_document [
    | some document ↦ ok document
    | none ↦ document_for_key (key_document_of change.document_key)
  ]

  unfoldable pub resolve_tenant : Document V → MongoChangeEvent V Token → Result Error (Option Text)
  resolve_tenant document change = elim config.tenant [
    | no_tenant ↦ ok none
    | fixed tenant ↦ ok (some tenant)
    | resolver resolve ↦ resolve document change
  ]

  unfoldable pub keys_from : Document V → Result Error (List Text)
  keys_from document = elim config.keys_of [ none ↦ ok [] | some keys ↦ keys document ]

  unfoldable pub map_mongo_change_to_invalidation :
      MongoChangeEvent V Token → Result Error MongoInvalidationPlan
  map_mongo_change_to_invalidation change = do
    document ← document_for_change change
    tenant ← resolve_tenant document change
    keys ← keys_from document
    tags ← config.tags_of document
    ok (record { keys = unique keys; tags = unique tags; tenant = non_empty tenant })

  unfoldable pub is_unsafe_delete : MongoChangeEvent V Token → Bool
  is_unsafe_delete change =
      if not config.requires_document_for_delete
      then false
      else text_eq change.operation_type (codes "delete") && missing change.full_document
