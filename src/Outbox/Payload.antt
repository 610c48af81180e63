-- ===== src/Outbox/Payload.antt =====
-- What a row of packages/postgres-outbox/src/index.ts says to invalidate. JSON.parse is a
-- parameter.
use safecache.Base.{Option, none, some, List, [], ◌∷◌}
use safecache.Text.{Text, codes, text_has_eq}
use safecache.JsSet
use safecache.Result.{Result, ok, throw}
use safecache.Cache.Types.{Error}

-- A value in a payload: `none` in an array is an item that is not a string.
pub data Field : Type 0 where
  missing : Field
  text : Text → Field
  array : List (Option Text) → Field
  other : Field

-- The column: a string, an object, or neither.
pub data Payload : Type 0 where
  raw : Text → Payload
  object : (Text → Field) → Payload
  scalar : Payload

pub record CacheOutboxInvalidation : Type 0 where
  pub keys : List Text
  pub tags : List Text
  pub tenant : Option Text

abbrev no_fields : Text → Field
no_fields name = missing

-- `isRecord(parsed) ? parsed : {}`
unfoldable pub fields_of : Payload → Text → Field
unfolding no_fields
fields_of (object fields) = fields
fields_of (raw t) = no_fields
fields_of scalar = no_fields

unfoldable pub settle_parsed : Result Error Payload → Result Error (Text → Field)
settle_parsed (ok parsed) = ok (fields_of parsed)
settle_parsed (throw e) = throw e

unfoldable pub parse_payload : (Text → Result Error Payload) → Payload → Result Error (Text → Field)
parse_payload json_parse (raw t) = settle_parsed (json_parse t)
parse_payload json_parse (object fields) = ok fields
parse_payload json_parse scalar = ok (fields_of scalar)

-- the strings of an array
unfoldable pub strings_of : List (Option Text) → List Text
strings_of [] = []
strings_of (none ∷ items) = strings_of items
strings_of (some t ∷ items) = t ∷ strings_of items

unfoldable pub array_of_strings : Field → List Text
array_of_strings (array items) = strings_of items
array_of_strings (text t) = t ∷ []
array_of_strings missing = []
array_of_strings other = []

-- `a ?? b`
unfoldable pub or_field : Field → Field → Field
or_field missing b = b
or_field (text t) b = text t
or_field (array items) b = array items
or_field other b = other

-- a tenant that is a text, and not the empty one
unfoldable pub tenant_of : Field → Option Text
tenant_of (text []) = none
tenant_of (text (c ∷ t)) = some (c ∷ t)
tenant_of missing = none
tenant_of (array items) = none
tenant_of other = none

unfoldable pub invalidation_of : (Text → Field) → CacheOutboxInvalidation
invalidation_of payload = record {
  keys = array_of_strings (or_field (payload (codes "keys")) (payload (codes "key")));
  tags = array_of_strings (or_field (payload (codes "tags")) (payload (codes "tag")));
  tenant = tenant_of (payload (codes "tenant"));
}

unfoldable pub settle_mapped : Result Error (Text → Field) → Result Error CacheOutboxInvalidation
settle_mapped (ok payload) = ok (invalidation_of payload)
settle_mapped (throw e) = throw e

unfoldable pub map_postgres_outbox_row :
    (Text → Result Error Payload) → Payload → Result Error CacheOutboxInvalidation
map_postgres_outbox_row json_parse payload = settle_mapped (parse_payload json_parse payload)

-- `[...new Set(values)]`
unfoldable pub unique_from : List Text → List Text → List Text
unique_from seen [] = seen
unique_from seen (v ∷ values) = unique_from (JsSet.add seen v) values

abbrev pub unique : List Text → List Text
unique values = unique_from [] values
