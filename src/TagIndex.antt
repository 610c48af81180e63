-- ===== src/TagIndex.antt =====
-- packages/core/src/tag-index.ts: the in-memory tag index. A set in one of its maps is updated in
-- place in the source, and stored back under its key here.
pub mod Lookups
pub mod Linked
pub mod Relation
use safecache.Base.{◌++◌, ◌∷◌, Option, none, some, List, [], Bool, true, false, if◌then◌else◌}
use safecache.Text.{Text, text_has_eq}
use safecache.JsMap
use safecache.JsMap.{JsMap}
use safecache.JsSet

-- `${scope}\0${value}`
unfoldable pub composite : Text → Text → Text
composite scope value = scope ++ (0 ∷ value)

pub record InMemoryTagIndex : Type 0 where
  pub forward : JsMap Text (List Text)
  pub reverse : JsMap Text (List Text)

abbrev pub no_tags : InMemoryTagIndex
no_tags = record { forward = []; reverse = [] }

-- `set ?? []`
abbrev pub or_empty : Option (List Text) → List Text
or_empty none = []
or_empty (some s) = s

-- the set under a key, created where there is none, with one more element
unfoldable pub add_under : JsMap Text (List Text) → Text → Text → JsMap Text (List Text)
add_under m at element = JsMap.set m at (JsSet.add (or_empty (JsMap.get m at)) element)

-- a set that has lost an element, stored back unless it is empty
abbrev pub store_pruned : JsMap Text (List Text) → Text → List Text → JsMap Text (List Text)
store_pruned m at [] = JsMap.delete m at
store_pruned m at (e ∷ es) = JsMap.set m at (e ∷ es)

-- the set under a key, if there is one, without an element; an empty set is dropped
unfoldable pub delete_under : JsMap Text (List Text) → Text → Text → JsMap Text (List Text)
delete_under m at element = elim (JsMap.get m at) [
  | none ↦ m
  | some s ↦ store_pruned m at (JsSet.delete s element)
]

-- the loop of `addTags`
unfoldable pub add_each : Text → Text → List Text → InMemoryTagIndex → InMemoryTagIndex
add_each scope key [] index = index
add_each scope key (tag ∷ tags) index = add_each scope key tags (record {
  forward = add_under index.forward (composite scope tag) key;
  reverse = add_under index.reverse (composite scope key) tag;
})

-- the reverse set is created even when there are no tags
abbrev ensure : JsMap Text (List Text) → Text → JsMap Text (List Text)
ensure m at = JsMap.set m at (or_empty (JsMap.get m at))

unfoldable pub add_tags : Text → Text → List Text → InMemoryTagIndex → InMemoryTagIndex
add_tags scope key tags index =
    add_each scope key tags (record index { reverse = ensure index.reverse (composite scope key) })

unfoldable pub get_keys_by_tag : Text → Text → InMemoryTagIndex → List Text
get_keys_by_tag scope tag index = or_empty (JsMap.get index.forward (composite scope tag))

-- the forward part of the loop of `removeKey`
unfoldable pub untag_each :
    Text → Text → List Text → JsMap Text (List Text) → JsMap Text (List Text)
untag_each scope key [] forward = forward
untag_each scope key (tag ∷ tags) forward =
    untag_each scope key tags (delete_under forward (composite scope tag) key)

-- its reverse part: the set that it empties, which is dropped behind the loop
unfoldable pub delete_each : List Text → List Text → List Text
delete_each [] s = s
delete_each (tag ∷ tags) s = delete_each tags (JsSet.delete s tag)

-- `tags ?? (reverseSet !== undefined ? [...reverseSet] : [])`
unfoldable pub tags_to_remove : Option (List Text) → Option (List Text) → List Text
tags_to_remove (some tags) reverse_set = tags
tags_to_remove none reverse_set = or_empty reverse_set

unfoldable pub remove_key : Text → Text → Option (List Text) → InMemoryTagIndex → InMemoryTagIndex
remove_key scope key tags index =
    let reverse_set = JsMap.get index.reverse (composite scope key) in
    let removed = tags_to_remove tags reverse_set in
    record {
      forward = untag_each scope key removed index.forward;
      reverse = elim reverse_set [
        | none ↦ index.reverse
        | some s ↦ store_pruned index.reverse (composite scope key) (delete_each removed s)
      ];
    }

-- the loop of `removeTag`
unfoldable pub strip_each :
    Text → Text → List Text → JsMap Text (List Text) → JsMap Text (List Text)
strip_each scope tag [] reverse = reverse
strip_each scope tag (key ∷ keys) reverse =
    strip_each scope tag keys (delete_under reverse (composite scope key) tag)

unfoldable pub remove_tag : Text → Text → InMemoryTagIndex → InMemoryTagIndex
remove_tag scope tag index = elim (JsMap.get index.forward (composite scope tag)) [
  | none ↦ index
  | some keys ↦ record {
    forward = JsMap.delete index.forward (composite scope tag);
    reverse = strip_each scope tag keys index.reverse;
  }
]
