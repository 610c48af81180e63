-- ===== src/TagIndex/Linked.antt =====
-- Removals keep the two maps of a tag index in agreement.
use safecache.Base.{◌≡◌, refl, ◌∷◌, none, List, [], false, not, ◌&&◌, arith, inl, inr, Option-cases}
use safecache.Text.{Text, text_has_eq, text_eq, text_eq_iff}
use safecache.JsSet
use safecache.JsSet.{has-delete}
use safecache.JsMap
use safecache.JsMap.{JsMap}
use safecache.TagIndex.{
  InMemoryTagIndex, composite, delete_under, get_keys_by_tag, tags_to_remove, delete_each,
  strip_each, remove_key, remove_tag,
}
use safecache.TagIndex.Lookups.{
  holds, text_eq-composite, holds-store_pruned, holds-delete_under, IsLinked,
  get_keys_by_tag-remove_key, get_keys_by_tag-remove_tag,
}

has-delete_each :
    (tags s : List Text) (t : Text)
    → JsSet.has (delete_each tags s) t ≡ (JsSet.has s t && not (JsSet.has tags t))
unfolding delete_each JsSet.has
has-delete_each [] s t = ground arith
has-delete_each (tag ∷ tags) s t =
    ground (arith, has-delete_each tags (JsSet.delete s tag) t, has-delete s tag t)

knows-strip_each :
    (scope tag : Text) (keys : List Text) (reverse : JsMap Text (List Text)) (tag' k : Text)
    → holds (strip_each scope tag keys reverse) (composite scope k) tag'
      ≡ (holds reverse (composite scope k) tag' && not (text_eq tag tag' && JsSet.has keys k))
unfolding strip_each JsSet.has
knows-strip_each scope tag [] reverse tag' k = ground arith
knows-strip_each scope tag (key ∷ keys) reverse tag' k = ground (
  arith,
  knows-strip_each scope tag keys (delete_under reverse (composite scope key) tag) tag' k,
  holds-delete_under reverse (composite scope key) tag (composite scope k) tag',
  text_eq-composite scope key k,
)

-- The removed key knows no tag, and the other keys what they knew.
knows-remove_key :
    (scope key : Text) (index : InMemoryTagIndex) (tag k : Text)
    → holds (remove_key scope key none index).reverse (composite scope k) tag
      ≡ (holds index.reverse (composite scope k) tag && not (text_eq key k))
unfolding remove_key tags_to_remove
knows-remove_key scope key index tag k =
    elim (Option-cases (JsMap.get index.reverse (composite scope key))) [
      | inl gone ↦
          rw (gone, remove_key) (unfold holds JsSet.has in ground (arith, text_eq_iff key k))
      | inr (s, there) ↦
          rw (there, remove_key)
            (ground (
              arith,
              holds-store_pruned index.reverse (composite scope key) (composite scope k) tag
                  (delete_each s s),
              has-delete_each s s tag,
              text_eq-composite scope key k,
            ))
    ]

pub remove_key-IsLinked :
    (scope key : Text) (index : InMemoryTagIndex)
    → IsLinked scope index
    → IsLinked scope (remove_key scope key none index)
unfolding get_keys_by_tag holds
remove_key-IsLinked scope key index linked tag k = ground (
  arith,
  get_keys_by_tag-remove_key scope key index tag k linked,
  knows-remove_key scope key index tag k,
  linked tag k,
)

-- No key knows the removed tag, and each of them its other tags, in an index whose maps agree.
knows-remove_tag :
    (scope tag : Text) (index : InMemoryTagIndex) (tag' k : Text)
    → IsLinked scope index
    → holds (remove_tag scope tag index).reverse (composite scope k) tag'
      ≡ (holds index.reverse (composite scope k) tag' && not (text_eq tag tag'))
unfolding remove_tag
knows-remove_tag scope tag index tag' k linked =
    elim (Option-cases (JsMap.get index.forward (composite scope tag))) [
      | inl gone ↦
          let finds : holds index.forward (composite scope tag) k ≡ false =
            unfold holds JsSet.has in rw gone refl in
          rw (gone, remove_tag) (ground (arith, finds, linked tag k, text_eq_iff tag tag'))
      | inr (keys, there) ↦
          let finds : holds index.forward (composite scope tag) k ≡ JsSet.has keys k =
            unfold holds in rw there refl in
          rw (there, remove_tag)
            (ground (
              arith,
              knows-strip_each scope tag keys index.reverse tag' k,
              finds,
              linked tag k,
              text_eq_iff tag tag',
            ))
    ]

pub remove_tag-IsLinked :
    (scope tag : Text) (index : InMemoryTagIndex)
    → IsLinked scope index
    → IsLinked scope (remove_tag scope tag index)
unfolding get_keys_by_tag holds
remove_tag-IsLinked scope tag index linked tag' k = ground (
  arith,
  get_keys_by_tag-remove_tag scope tag tag' k index,
  knows-remove_tag scope tag index tag' k linked,
  linked tag' k,
)
