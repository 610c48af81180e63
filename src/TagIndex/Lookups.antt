-- ===== src/TagIndex/Lookups.antt =====
-- What a lookup by tag finds after each operation of the tag index.
use safecache.Base.{
  ◌≡◌, refl, ◌∷◌, none, List, [], Bool, false, not, ◌&&◌, ◌||◌, if◌then◌else◌, arith, inl, inr,
  Option-cases,
}
use safecache.Text.{Text, text_has_eq, text_eq, text_eq_iff}
use safecache.JsMap
use safecache.JsMap.{JsMap, get-set, get-delete}
use safecache.JsSet
use safecache.JsSet.{has-add, has-delete}
use safecache.TagIndex.{
  InMemoryTagIndex, no_tags, composite, or_empty, add_under, delete_under, store_pruned, add_each,
  add_tags, get_keys_by_tag, untag_each, tags_to_remove, remove_key, remove_tag,
}

-- Within one scope, composite keys are equal only for equal values, whatever characters they hold.
pub text_eq-composite :
    (scope a b : Text) → text_eq (composite scope a) (composite scope b) ≡ text_eq a b
unfolding composite text_eq
text_eq-composite [] a b = ground arith
text_eq-composite (c ∷ scope) a b = ground (arith, text_eq-composite scope a b)

-- Whether the set under a key has an element.
unfoldable pub holds : JsMap Text (List Text) → Text → Text → Bool
holds m at element = JsSet.has (or_empty (JsMap.get m at)) element

holds-set :
    (m : JsMap Text (List Text)) (at at' element : Text) (s : List Text)
    → holds (JsMap.set m at s) at' element
      ≡ (if text_eq at at' then JsSet.has s element else holds m at' element)
unfolding holds
holds-set m at at' element s = ground (arith, get-set m at at' s)

pub holds-delete :
    (m : JsMap Text (List Text)) (at at' element : Text)
    → holds (JsMap.delete m at) at' element
      ≡ (if text_eq at at' then false else holds m at' element)
unfolding holds JsSet.has
holds-delete m at at' element = ground (arith, get-delete m at at')

pub holds-add_under :
    (m : JsMap Text (List Text)) (at element at' element' : Text)
    → holds (add_under m at element) at' element'
      ≡ (holds m at' element' || (text_eq at at' && text_eq element element'))
unfolding add_under
holds-add_under m at element at' element' =
    let s = or_empty (JsMap.get m at) in
    unfold holds in
    ground (
      arith,
      holds-set m at at' element' (JsSet.add s element),
      has-add s element element',
      text_eq_iff at at',
    )

pub holds-store_pruned :
    (m : JsMap Text (List Text)) (at at' element : Text) (s : List Text)
    → holds (store_pruned m at s) at' element
      ≡ (if text_eq at at' then JsSet.has s element else holds m at' element)
unfolding JsSet.has
holds-store_pruned m at at' element [] = holds-delete m at at' element
holds-store_pruned m at at' element (e ∷ es) = holds-set m at at' element (e ∷ es)

pub holds-delete_under :
    (m : JsMap Text (List Text)) (at element at' element' : Text)
    → holds (delete_under m at element) at' element'
      ≡ (holds m at' element' && not (text_eq at at' && text_eq element element'))
unfolding delete_under
holds-delete_under m at element at' element' = elim (Option-cases (JsMap.get m at)) [
  | inl gone ↦
      rw (gone, delete_under) (unfold holds JsSet.has in ground (arith, text_eq_iff at at'))
  | inr (s, there) ↦
      rw (there, delete_under)
        (unfold holds in
          ground (
            arith,
            holds-store_pruned m at at' element' (JsSet.delete s element),
            has-delete s element element',
            text_eq_iff at at',
          ))
]

finds-add_each :
    (scope key : Text) (tags : List Text) (index : InMemoryTagIndex) (tag k : Text)
    → holds (add_each scope key tags index).forward (composite scope tag) k
      ≡ (holds index.forward (composite scope tag) k || (JsSet.has tags tag && text_eq key k))
unfolding add_each JsSet.has
finds-add_each scope key [] index tag k = ground arith
finds-add_each scope key (t ∷ tags) index tag k = ground (
  arith,
  finds-add_each scope key tags
      (record {
        forward = add_under index.forward (composite scope t) key;
        reverse = add_under index.reverse (composite scope key) t;
      })
      tag k,
  holds-add_under index.forward (composite scope t) key (composite scope tag) k,
  text_eq-composite scope t tag,
)

-- After a key is tagged, a lookup in that scope finds what it found before, and the key under
-- each of its tags; it finds nothing else.
pub get_keys_by_tag-add_tags :
    (scope key : Text) (tags : List Text) (index : InMemoryTagIndex) (tag k : Text)
    → JsSet.has (get_keys_by_tag scope tag (add_tags scope key tags index)) k
      ≡ (JsSet.has (get_keys_by_tag scope tag index) k || (JsSet.has tags tag && text_eq key k))
unfolding get_keys_by_tag add_tags holds
get_keys_by_tag-add_tags scope key tags index tag k =
    finds-add_each scope key tags
      (record index {
        reverse =
            JsMap.set index.reverse (composite scope key)
              (or_empty (JsMap.get index.reverse (composite scope key)));
      })
      tag k

finds-untag_each :
    (scope key : Text) (tags : List Text) (forward : JsMap Text (List Text)) (tag k : Text)
    → holds (untag_each scope key tags forward) (composite scope tag) k
      ≡ (holds forward (composite scope tag) k && not (JsSet.has tags tag && text_eq key k))
unfolding untag_each JsSet.has
finds-untag_each scope key [] forward tag k = ground arith
finds-untag_each scope key (t ∷ tags) forward tag k = ground (
  arith,
  finds-untag_each scope key tags (delete_under forward (composite scope t) key) tag k,
  holds-delete_under forward (composite scope t) key (composite scope tag) k,
  text_eq-composite scope t tag,
)

-- What the two maps of a valid index say of a scope agrees: a tag finds the keys that know the tag.
abbrev pub IsLinked : Text → InMemoryTagIndex → Type 0
IsLinked scope index =
    (tag key : Text)
    → holds index.forward (composite scope tag) key ≡ holds index.reverse (composite scope key) tag

pub no_tags-IsLinked : (scope : Text) → IsLinked scope no_tags
unfolding holds JsMap.get JsSet.has
no_tags-IsLinked scope tag key = refl

knows-add_each :
    (scope key : Text) (tags : List Text) (index : InMemoryTagIndex) (tag k : Text)
    → holds (add_each scope key tags index).reverse (composite scope k) tag
      ≡ (holds index.reverse (composite scope k) tag || (JsSet.has tags tag && text_eq key k))
unfolding add_each JsSet.has
knows-add_each scope key [] index tag k = ground arith
knows-add_each scope key (t ∷ tags) index tag k = ground (
  arith,
  knows-add_each scope key tags
      (record {
        forward = add_under index.forward (composite scope t) key;
        reverse = add_under index.reverse (composite scope key) t;
      })
      tag k,
  holds-add_under index.reverse (composite scope key) t (composite scope k) tag,
  text_eq-composite scope key k,
)

holds-ensure :
    (m : JsMap Text (List Text)) (at at' element : Text)
    → holds (JsMap.set m at (or_empty (JsMap.get m at))) at' element ≡ holds m at' element
holds-ensure m at at' element =
    unfold holds in
    ground (arith, holds-set m at at' element (or_empty (JsMap.get m at)), text_eq_iff at at')

-- Tagging a key keeps the two maps of an index in agreement on the scope.
pub add_tags-IsLinked :
    (scope key : Text) (tags : List Text) (index : InMemoryTagIndex)
    → IsLinked scope index
    → IsLinked scope (add_tags scope key tags index)
unfolding add_tags
add_tags-IsLinked scope key tags index linked tag k =
    let ready : InMemoryTagIndex = record index {
      reverse =
          JsMap.set index.reverse (composite scope key)
            (or_empty (JsMap.get index.reverse (composite scope key)));
    } in
    ground (
      arith,
      finds-add_each scope key tags ready tag k,
      knows-add_each scope key tags ready tag k,
      holds-ensure index.reverse (composite scope key) (composite scope k) tag,
      linked tag k,
    )

-- Removing a key without naming tags takes it out of every lookup in its scope, whatever it was
-- tagged with, and takes nothing else out, in an index whose maps agree on the scope.
pub get_keys_by_tag-remove_key :
    (scope key : Text) (index : InMemoryTagIndex) (tag k : Text)
    → IsLinked scope index
    → JsSet.has (get_keys_by_tag scope tag (remove_key scope key none index)) k
      ≡ (JsSet.has (get_keys_by_tag scope tag index) k && not (text_eq key k))
unfolding get_keys_by_tag remove_key tags_to_remove holds
get_keys_by_tag-remove_key scope key index tag k linked = ground (
  arith,
  finds-untag_each scope key (or_empty (JsMap.get index.reverse (composite scope key)))
      index.forward tag k,
  linked tag k,
  text_eq_iff key k,
)

-- Removing a tag leaves a lookup of it empty, and every other lookup in the scope as it was.
pub get_keys_by_tag-remove_tag :
    (scope tag tag' k : Text) (index : InMemoryTagIndex)
    → JsSet.has (get_keys_by_tag scope tag' (remove_tag scope tag index)) k
      ≡ (JsSet.has (get_keys_by_tag scope tag' index) k && not (text_eq tag tag'))
unfolding get_keys_by_tag remove_tag holds
get_keys_by_tag-remove_tag scope tag tag' k index =
    elim (Option-cases (JsMap.get index.forward (composite scope tag))) [
      | inl gone ↦
          rw (gone, remove_tag)
            (unfold JsSet.has in
              ground (
                arith,
                text_eq-composite scope tag tag',
                text_eq_iff (composite scope tag) (composite scope tag'),
              ))
      | inr (s, there) ↦
          rw (there, remove_tag)
            (ground (
              arith,
              holds-delete index.forward (composite scope tag) (composite scope tag') k,
              text_eq-composite scope tag tag',
            ))
    ]
