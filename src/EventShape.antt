-- ===== src/EventShape.antt =====
-- packages/core/src/utils.ts: the validation of events from other processes. JSON.parse is a
-- parameter.
pub mod Accepts
use safecache.Base.{Bool, true, false, ◌&&◌, ◌||◌, List, [], ◌∷◌, if◌then◌else◌}
use safecache.Text.{Text, codes, text_eq}
use safecache.Result.{Result, ok, throw}

-- A JavaScript value, as far as `typeof` and the lookup of properties tell.
pub data Value : Type 0 where
  undefined null boolean number : Value
  text : Text → Value
  object : (Text → Value) → Value

pub data ParseError : Type 0 where
  malformed_json mismatched_shape : ParseError

unfoldable pub is_string : Value → Bool
is_string (text _) = true
is_string _ = false

unfoldable pub is_number : Value → Bool
is_number number = true
is_number _ = false

unfoldable pub is_event_type : Value → Bool
is_event_type (text t) =
    text_eq t (codes "invalidate:key")
    || text_eq t (codes "invalidate:tag")
    || text_eq t (codes "refresh:key")
is_event_type _ = false

unfoldable pub is_optional_string : Value → Bool
is_optional_string undefined = true
is_optional_string (text _) = true
is_optional_string _ = false

abbrev pub optional_string_fields : List Text
optional_string_fields =
    codes "key"
    ∷ codes "tag"
    ∷ codes "tenant"
    ∷ codes "actor"
    ∷ codes "reason"
    ∷ codes "region"
    ∷ codes "signature"
    ∷ []

-- the loop over the optional fields
unfoldable pub all_optional : List Text → (Text → Value) → Bool
all_optional [] event = true
all_optional (field ∷ fields) event =
    let rest = all_optional fields event in if is_optional_string (event field) then rest else false

unfoldable pub is_cache_event : Value → Bool
is_cache_event (object event) =
    is_string (event (codes "id"))
    && (is_string (event (codes "source"))
        && (is_number (event (codes "timestamp"))
            && (is_string (event (codes "namespace"))
                && (is_event_type (event (codes "type"))
                    && all_optional optional_string_fields event))))
is_cache_event _ = false

unfoldable pub checked : Value → Result ParseError Value
checked candidate = if is_cache_event candidate then ok candidate else throw mismatched_shape

-- the `try` and the `catch` round JSON.parse, and the check behind it
unfoldable pub settle_json : Result ParseError Value → Result ParseError Value
settle_json (ok candidate) = checked candidate
settle_json (throw e) = throw malformed_json

-- a text is parsed first
unfoldable pub parse_cache_event :
    (Text → Result ParseError Value) → Value → Result ParseError Value
parse_cache_event json_parse (text raw) = settle_json (json_parse raw)
parse_cache_event json_parse candidate = checked candidate
