-- ===== src/Redis/Agreement.antt =====
-- The tag index of packages/redis/src/index.ts keeps what a tag index promises.
use safecache.Base.{ℕ, ◌≡◌, refl, ◌∙◌, false, not, ◌&&◌, ◌||◌, List, [], ◌∷◌, ◌++◌, arith}
use safecache.Text.{Text, codes, text_eq, text_eq_iff, text_has_eq}
use safecache.JsSet
use safecache.TagIndex.Relation.{add, drop_key, drop_tag, Tagging, change_tagging}
use safecache.Redis.{
  queue_s_add, queue_s_rem, tag_key, key_tags_key, queue_tags, queue_add, queue_remove_key,
  queue_remove_tag,
}
use safecache.Redis.Steps.{
  Sets, step, steps, remove_from, steps-queue_remove_key, steps-queue_remove_tag,
}

text_eq-append : (p a b : Text) → text_eq (p ++ a) (p ++ b) ≡ text_eq a b
unfolding text_eq
text_eq-append [] a b = refl
text_eq-append (c ∷ p) a b = ground (arith, text_eq-append p a b)

-- An element leaves the sets of these keys, and no other.
remove_from-hit :
    (key_of : Text → Text) (element : Text) (ts : List Text) (sets : Sets) (t e : Text)
    → ((a b : Text) → text_eq (key_of a) (key_of b) ≡ text_eq a b)
    → remove_from key_of element ts sets (key_of t) e
      ≡ (sets (key_of t) e && not (JsSet.has ts t && text_eq element e))
unfolding remove_from step JsSet.has
remove_from-hit key_of element [] sets t e same = ground arith
remove_from-hit key_of element (t' ∷ ts) sets t e same = ground (
  arith,
  remove_from-hit key_of element ts (step (queue_s_rem (key_of t') (element ∷ [])) sets) t e same,
  same t' t,
)

remove_from-miss :
    (key_of : Text → Text) (element : Text) (ts : List Text) (sets : Sets) (at e : Text)
    → ((a : Text) → text_eq (key_of a) at ≡ false)
    → remove_from key_of element ts sets at e ≡ sets at e
unfolding remove_from step
remove_from-miss key_of element [] sets at e apart = refl
remove_from-miss key_of element (t ∷ ts) sets at e apart = ground (
  arith,
  remove_from-miss key_of element ts (step (queue_s_rem (key_of t) (element ∷ [])) sets) at e apart,
  apart t,
)

module _ (prefix scope : Text) where
  -- No tag of the scope has its set where a key has its tags.
  abbrev pub IsApart : Type 0
  IsApart =
      (tag key : Text) → text_eq (tag_key prefix scope tag) (key_tags_key prefix scope key) ≡ false

  text_eq-tag_key :
      (a b : Text) → text_eq (tag_key prefix scope a) (tag_key prefix scope b) ≡ text_eq a b
  unfolding tag_key
  text_eq-tag_key a b =
      text_eq-append prefix _ _
      ∙ text_eq-append (codes ":") _ _
      ∙ text_eq-append scope _ _
      ∙ text_eq-append (codes ":") a b

  text_eq-key_tags_key :
      (a b : Text)
      → text_eq (key_tags_key prefix scope a) (key_tags_key prefix scope b) ≡ text_eq a b
  unfolding key_tags_key
  text_eq-key_tags_key a b =
      text_eq-append prefix _ _
      ∙ text_eq-append (codes ":keys:") _ _
      ∙ text_eq-append scope _ _
      ∙ text_eq-append (codes ":") a b

  -- Sets stand for a tagging when the tags' sets give that, and the keys' sets give the same.
  pub record Represents (sets : Sets) (known : Tagging) : Type 0 where
    pub looks_up : (tag key : Text) → sets (tag_key prefix scope tag) key ≡ known tag key
    pub linked : (tag key : Text) → sets (key_tags_key prefix scope key) tag ≡ known tag key

  module _ (apart : IsApart) where
    apart_back :
        (key tag : Text)
        → text_eq (key_tags_key prefix scope key) (tag_key prefix scope tag) ≡ false
    apart_back key tag = ground (
      arith,
      apart tag key,
      text_eq_iff (key_tags_key prefix scope key) (tag_key prefix scope tag),
      text_eq_iff (tag_key prefix scope tag) (key_tags_key prefix scope key),
    )

    tags-queue_tags :
        (key : Text) (seconds : ℕ) (tags : List Text) (sets : Sets) (t e : Text)
        → steps (queue_tags prefix scope key seconds tags) sets (tag_key prefix scope t) e
          ≡ (sets (tag_key prefix scope t) e || (JsSet.has tags t && text_eq key e))
    unfolding queue_tags steps step JsSet.has
    tags-queue_tags key seconds [] sets t e = ground arith
    tags-queue_tags key seconds (tag ∷ tags) sets t e = ground (
      arith,
      tags-queue_tags key seconds tags
          (step (queue_s_add (tag_key prefix scope tag) (key ∷ [])) sets) t e,
      text_eq-tag_key tag t,
    )

    keys-queue_tags :
        (key : Text) (seconds : ℕ) (tags : List Text) (sets : Sets) (k e : Text)
        → steps (queue_tags prefix scope key seconds tags) sets (key_tags_key prefix scope k) e
          ≡ sets (key_tags_key prefix scope k) e
    unfolding queue_tags steps step
    keys-queue_tags key seconds [] sets k e = ground arith
    keys-queue_tags key seconds (tag ∷ tags) sets k e = ground (
      arith,
      keys-queue_tags key seconds tags
          (step (queue_s_add (tag_key prefix scope tag) (key ∷ [])) sets) k e,
      apart tag k,
    )

    pub add-Represents :
        (key : Text) (tags : List Text) (seconds : ℕ) (sets : Sets) (known : Tagging)
        → Represents sets known
        → Represents
            (steps (queue_add prefix scope key tags seconds) sets)
            (change_tagging (add key tags) known)
    unfolding queue_add steps step change_tagging
    add-Represents key tags seconds sets known r = record {
      looks_up = λ t k. ground (
        arith,
        tags-queue_tags key seconds tags
            (step (queue_s_add (key_tags_key prefix scope key) tags) sets) t k,
        r.looks_up t k,
        apart_back key t,
      );
      linked = λ t k. ground (
        arith,
        keys-queue_tags key seconds tags
            (step (queue_s_add (key_tags_key prefix scope key) tags) sets) k t,
        r.linked t k,
        text_eq-key_tags_key key k,
      );
    }

    pub drop_key-Represents :
        (key : Text) (tags : List Text) (sets : Sets) (known : Tagging)
        → ((t : Text) → JsSet.has tags t ≡ sets (key_tags_key prefix scope key) t)
        → Represents sets known
        → Represents
            (steps (queue_remove_key prefix scope key tags) sets)
            (change_tagging (drop_key key) known)
    unfolding step change_tagging
    drop_key-Represents key tags sets known exact r =
        rw (steps-queue_remove_key prefix scope key tags) (record {
          looks_up = λ t k. ground (
            arith,
            remove_from-hit (tag_key prefix scope) key tags sets t k text_eq-tag_key,
            apart_back key t,
            exact t,
            r.looks_up t k,
            r.linked t k,
            text_eq_iff key k,
          );
          linked = λ t k. ground (
            arith,
            remove_from-miss (tag_key prefix scope) key tags sets (key_tags_key prefix scope k) t
                (λ a. apart a k),
            text_eq-key_tags_key key k,
            r.linked t k,
          );
        })

    pub drop_tag-Represents :
        (tag : Text) (keys : List Text) (sets : Sets) (known : Tagging)
        → ((k : Text) → JsSet.has keys k ≡ sets (tag_key prefix scope tag) k)
        → Represents sets known
        → Represents
            (steps (queue_remove_tag prefix scope tag keys) sets)
            (change_tagging (drop_tag tag) known)
    unfolding step change_tagging
    drop_tag-Represents tag keys sets known exact r =
        rw (steps-queue_remove_tag prefix scope tag keys) (record {
          looks_up = λ t k. ground (
            arith,
            remove_from-miss (key_tags_key prefix scope) tag keys sets (tag_key prefix scope t) k
                (λ a. apart_back a t),
            text_eq-tag_key tag t,
            r.looks_up t k,
          );
          linked = λ t k. ground (
            arith,
            remove_from-hit (key_tags_key prefix scope) tag keys sets k t text_eq-key_tags_key,
            apart tag k,
            r.linked t k,
            exact k,
            r.looks_up tag k,
            text_eq_iff tag t,
          );
        })
