-- ===== src/TagIndex/Relation.antt =====
-- What a tag index promises to the cache, as a relation between tags and keys, and that the
-- in-memory index keeps the promise.
use safecache.Base.{◌≡◌, refl, ◌∷◌, none, List, [], Bool, false, not, ◌&&◌, ◌||◌, arith}
use safecache.Text.{Text, text_has_eq, text_eq}
use safecache.JsMap
use safecache.JsSet
use safecache.TagIndex.{
  InMemoryTagIndex, no_tags, add_tags, get_keys_by_tag, remove_key, remove_tag,
}
use safecache.TagIndex.Lookups.{
  IsLinked, no_tags-IsLinked, add_tags-IsLinked, get_keys_by_tag-add_tags,
  get_keys_by_tag-remove_key, get_keys_by_tag-remove_tag,
}
use safecache.TagIndex.Linked.{remove_key-IsLinked, remove_tag-IsLinked}

-- The calls of the cache, in one scope.
pub data Change : Type 0 where
  add : Text → List Text → Change
  drop_key drop_tag : Text → Change

-- The tags of the keys, and nothing of how they are kept.
abbrev pub Tagging : Type 0
Tagging = Text → Text → Bool

abbrev pub untagged : Tagging
untagged tag key = false

-- what a change means
unfoldable pub change_tagging : Change → Tagging → Tagging
change_tagging (add key tags) known tag k = known tag k || (JsSet.has tags tag && text_eq key k)
change_tagging (drop_key key) known tag k = known tag k && not (text_eq key k)
change_tagging (drop_tag tag) known tag' k = known tag' k && not (text_eq tag tag')

unfoldable pub change_all : List Change → Tagging → Tagging
change_all [] known = known
change_all (c ∷ cs) known = change_all cs (change_tagging c known)

-- the same change by the index
unfoldable pub change_index : Text → Change → InMemoryTagIndex → InMemoryTagIndex
change_index scope (add key tags) index = add_tags scope key tags index
change_index scope (drop_key key) index = remove_key scope key none index
change_index scope (drop_tag tag) index = remove_tag scope tag index

unfoldable pub change_index_all : Text → List Change → InMemoryTagIndex → InMemoryTagIndex
change_index_all scope [] index = index
change_index_all scope (c ∷ cs) index = change_index_all scope cs (change_index scope c index)

-- An index stands for a tagging when its lookups give that, and its maps agree.
pub record Represents (scope : Text) (index : InMemoryTagIndex) (known : Tagging) : Type 0 where
  pub looks_up : (tag key : Text) → JsSet.has (get_keys_by_tag scope tag index) key ≡ known tag key
  pub linked : IsLinked scope index

no_tags-Represents : (scope : Text) → Represents scope no_tags untagged
unfolding get_keys_by_tag JsMap.get JsSet.has
no_tags-Represents scope = record { looks_up = λ tag key. refl; linked = no_tags-IsLinked scope }

change-Represents :
    (scope : Text) (c : Change) (index : InMemoryTagIndex) (known : Tagging)
    → Represents scope index known
    → Represents scope (change_index scope c index) (change_tagging c known)
unfolding change_index change_tagging
change-Represents scope (add key tags) index known r = record {
  looks_up = λ tag k.
      ground (arith, get_keys_by_tag-add_tags scope key tags index tag k, r.looks_up tag k);
  linked = add_tags-IsLinked scope key tags index r.linked;
}
change-Represents scope (drop_key key) index known r = record {
  looks_up = λ tag k.
      ground (arith, get_keys_by_tag-remove_key scope key index tag k r.linked, r.looks_up tag k);
  linked = remove_key-IsLinked scope key index r.linked;
}
change-Represents scope (drop_tag tag) index known r = record {
  looks_up = λ tag' k.
      ground (arith, get_keys_by_tag-remove_tag scope tag tag' k index, r.looks_up tag' k);
  linked = remove_tag-IsLinked scope tag index r.linked;
}

change_all-Represents :
    (scope : Text) (cs : List Change) (index : InMemoryTagIndex) (known : Tagging)
    → Represents scope index known
    → Represents scope (change_index_all scope cs index) (change_all cs known)
unfolding change_index_all change_all
change_all-Represents scope [] index known r = r
change_all-Represents scope (c ∷ cs) index known r =
    change_all-Represents scope cs (change_index scope c index) (change_tagging c known)
      (change-Represents scope c index known r)

-- After any taggings, removals of keys and removals of tags in a scope, in any order, the
-- in-memory index finds under each tag the keys that the same changes give as a relation, and its
-- two maps agree: a key is in the set of a tag just when the tag is in the set of the key.
pub index_refines_tagging :
    (scope : Text) (cs : List Change)
    → Represents scope (change_index_all scope cs no_tags) (change_all cs untagged)
index_refines_tagging scope cs =
    change_all-Represents scope cs no_tags untagged (no_tags-Represents scope)
