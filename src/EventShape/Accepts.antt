-- ===== src/EventShape/Accepts.antt =====
-- Which values the validation of events accepts.
use safecache.Base.{
  ◌≡◌, refl, subst, ◌⊎◌, inl, inr, Bool, true, false, List, [], ◌∷◌, All, arith, if◌then◌else◌,
  Bool-cases,
}
use safecache.Text.{Text, codes, text_eq, text_eq_iff}
use safecache.Result.{Result, ok, throw}
use safecache.EventShape.{
  Value, undefined, null, boolean, number, text, object, ParseError, mismatched_shape, is_string,
  is_number, is_event_type, is_optional_string, optional_string_fields, all_optional,
  is_cache_event, checked, settle_json, parse_cache_event,
}

-- The declared shape of an event: its required fields and their types.
pub record IsEvent (event : Text → Value) : Type 0 where
  pub id : (t : Text) × (event (codes "id") ≡ text t)
  pub source : (t : Text) × (event (codes "source") ≡ text t)
  pub timestamp : event (codes "timestamp") ≡ number
  pub namespace : (t : Text) × (event (codes "namespace") ≡ text t)
  pub kind :
      (event (codes "type") ≡ text (codes "invalidate:key"))
      ⊎ ((event (codes "type") ≡ text (codes "invalidate:tag"))
          ⊎ (event (codes "type") ≡ text (codes "refresh:key")))
  pub optional :
      All
        (λ field. (event field ≡ undefined) ⊎ ((t : Text) × (event field ≡ text t)))
        optional_string_fields

string_of : (v : Value) → is_string v ≡ true → (t : Text) × (v ≡ text t)
unfolding is_string
string_of (text t) h = (t, refl)
string_of undefined h = cc
string_of null h = cc
string_of boolean h = cc
string_of number h = cc
string_of (object event) h = cc

number_of : (v : Value) → is_number v ≡ true → v ≡ number
unfolding is_number
number_of number h = refl
number_of (text t) h = cc
number_of undefined h = cc
number_of null h = cc
number_of boolean h = cc
number_of (object event) h = cc

kind_of :
    (v : Value)
    → is_event_type v ≡ true
    → (v ≡ text (codes "invalidate:key"))
      ⊎ ((v ≡ text (codes "invalidate:tag")) ⊎ (v ≡ text (codes "refresh:key")))
unfolding is_event_type
kind_of (text t) h = elim (Bool-cases (text_eq t (codes "invalidate:key"))) [
  | inl k ↦
      inl (let e : t ≡ codes "invalidate:key" = (text_eq_iff t (codes "invalidate:key")).0 k in cc)
  | inr n ↦ elim (Bool-cases (text_eq t (codes "invalidate:tag"))) [
    | inl k ↦ inr (
        inl
          (let e : t ≡ codes "invalidate:tag" = (text_eq_iff t (codes "invalidate:tag")).0 k in cc))
    | inr m ↦ inr (
        inr (
          let e : t ≡ codes "refresh:key" =
            (text_eq_iff t (codes "refresh:key")).0 (ground arith) in
          cc))
  ]
]
kind_of undefined h = cc
kind_of null h = cc
kind_of boolean h = cc
kind_of number h = cc
kind_of (object event) h = cc

optional_of :
    (v : Value) → is_optional_string v ≡ true → (v ≡ undefined) ⊎ ((t : Text) × (v ≡ text t))
unfolding is_optional_string
optional_of undefined h = inl refl
optional_of (text t) h = inr (t, refl)
optional_of null h = cc
optional_of boolean h = cc
optional_of number h = cc
optional_of (object event) h = cc

all_of :
    (fields : List Text) (event : Text → Value)
    → all_optional fields event ≡ true
    → All (λ field. (event field ≡ undefined) ⊎ ((t : Text) × (event field ≡ text t))) fields
unfolding all_optional
all_of [] event h = tt
all_of (field ∷ fields) event h =
    (optional_of (event field) (ground arith), all_of fields event (ground arith))

accepted : (event : Text → Value) → is_cache_event (object event) ≡ true → IsEvent event
unfolding is_cache_event
accepted event h = record {
  id = string_of (event (codes "id")) (ground arith);
  source = string_of (event (codes "source")) (ground arith);
  timestamp = number_of (event (codes "timestamp")) (ground arith);
  namespace = string_of (event (codes "namespace")) (ground arith);
  kind = kind_of (event (codes "type")) (ground arith);
  optional = all_of optional_string_fields event (ground arith);
}

accepted_value :
    (v : Value)
    → is_cache_event v ≡ true
    → (event : Text → Value) × (v ≡ object event) × IsEvent event
unfolding is_cache_event
accepted_value (object event) h = (event, refl, accepted event h)
accepted_value (text t) h = cc
accepted_value undefined h = cc
accepted_value null h = cc
accepted_value boolean h = cc
accepted_value number h = cc

chosen :
    (b : Bool) (c v : Value)
    → (if b then ok c else throw mismatched_shape) ≡ ok v
    → (b ≡ true) × (c ≡ v)
chosen true c v h = (refl, cc)
chosen false c v h = cc

checked-IsEvent :
    (c v : Value) → checked c ≡ ok v → (event : Text → Value) × (v ≡ object event) × IsEvent event
unfolding checked
checked-IsEvent c v h =
    let (good, same) = chosen (is_cache_event c) c v h in
    accepted_value v (subst (λ u. is_cache_event u ≡ true) same good)

settled-IsEvent :
    (r : Result ParseError Value) (v : Value)
    → settle_json r ≡ ok v
    → (event : Text → Value) × (v ≡ object event) × IsEvent event
unfolding settle_json
settled-IsEvent (ok c) v h = checked-IsEvent c v h
settled-IsEvent (throw e) v h = cc

-- Whatever the untrusted input and whatever JSON parser: a value that is returned is an object
-- with the declared shape of an event.
pub parse_cache_event-IsEvent :
    (json_parse : Text → Result ParseError Value) (raw v : Value)
    → parse_cache_event json_parse raw ≡ ok v
    → (event : Text → Value) × (v ≡ object event) × IsEvent event
unfolding parse_cache_event
parse_cache_event-IsEvent json_parse (text t) v h = settled-IsEvent (json_parse t) v h
parse_cache_event-IsEvent json_parse undefined v h = checked-IsEvent undefined v h
parse_cache_event-IsEvent json_parse null v h = checked-IsEvent null v h
parse_cache_event-IsEvent json_parse boolean v h = checked-IsEvent boolean v h
parse_cache_event-IsEvent json_parse number v h = checked-IsEvent number v h
parse_cache_event-IsEvent json_parse (object event) v h = checked-IsEvent (object event) v h
