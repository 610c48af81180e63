-- ===== src/Cache/Epochs/Past.antt =====
-- After an invalidation the key's epoch is a later one, or has been evicted.
use safecache.Base.{
  ℕ, zero, suc, ◌+◌, ◌-◌, ◌≤◌, ◌<◌, ◌≡◌, inl, inr, none, some, List, [], ◌∷◌, ltb, arith, length,
  All, true, Bool-cases,
}
use safecache.Text.{Text, text_has_eq, text_eq, text_eq_iff}
use safecache.JsMap
use safecache.JsMap.{JsMap, get-set, length-set}
use safecache.JsSet
use safecache.Cache.Epochs.{Epochs, evict, bump_epoch, bump_all}
use safecache.Cache.Epochs.Bounds.{IsValid, bump_epoch-IsValid}

-- Every epoch that the map holds for the key is above `start`.
abbrev pub Past : ℕ → Text → JsMap Text ℕ → Type 0
Past start k = All (λ entry. text_eq entry.0 k ≡ true → start < entry.1)

Past-absent : (start : ℕ) (k : Text) (m : JsMap Text ℕ) → JsMap.get m k ≡ none → Past start k m
unfolding JsMap.get
Past-absent start k [] e = tt
Past-absent start k ((j, w) ∷ m) e = ground (arith, Past-absent start k m)

Past-set_self :
    (start : ℕ) (k : Text) (n : ℕ) (m : JsMap Text ℕ)
    → JsMap.Distinct m
    → start < n
    → Past start k (JsMap.set m k n)
unfolding JsMap.set
Past-set_self start k n [] d h = ((λ _. h), tt)
Past-set_self start k n ((j, w) ∷ m) d h = elim (Bool-cases (text_eq j k)) [
  | inl same ↦
      let absent : JsMap.get m k ≡ none = cc (d.0, (text_eq_iff j k).0 same) in
      rw same ((λ _. h), Past-absent start k m absent)
  | inr other ↦ rw other ((λ e. cc), Past-set_self start k n m d.1 h)
]

Past-set :
    (start : ℕ) (k j : Text) (n : ℕ) (m : JsMap Text ℕ)
    → Past start k m
    → start < n
    → Past start k (JsMap.set m j n)
unfolding JsMap.set
Past-set start k j n [] p h = ((λ _. h), tt)
Past-set start k j n ((i, w) ∷ m) p h = elim (Bool-cases (text_eq i j)) [
  | inl same ↦ rw same ((λ _. h), p.1)
  | inr other ↦ rw other (p.0, Past-set start k j n m p.1 h)
]

Past-evict :
    (start : ℕ) (k : Text) (n : ℕ) (m : JsMap Text ℕ) → Past start k m → Past start k (evict n m)
unfolding evict
Past-evict start k zero m p = p
Past-evict start k (suc n) [] p = p
Past-evict start k (suc n) (entry ∷ m) p = Past-evict start k n m p.1

pub get-Past :
    (start : ℕ) (k : Text) (m : JsMap Text ℕ) (v : ℕ)
    → Past start k m
    → JsMap.get m k ≡ some v
    → start < v
unfolding JsMap.get
get-Past start k [] v p e = cc
get-Past start k ((j, w) ∷ m) v p e = elim (Bool-cases (text_eq j k)) [
  | inl same ↦ ground (arith, p.0 same)
  | inr other ↦ get-Past start k m v p.1 (rw other at e)
]

bump_epoch-Past :
    (bound start : ℕ) (j k : Text) (es : Epochs)
    → start ≤ es.epoch_counter
    → Past start k es.invalidation_epochs
    → Past start k (bump_epoch bound j es).invalidation_epochs
unfolding bump_epoch
bump_epoch-Past bound start j k es le p =
    let marks = JsMap.set es.invalidation_epochs j (es.epoch_counter + 1) in
    let q : Past start k marks =
      Past-set start k j (es.epoch_counter + 1) es.invalidation_epochs p (omega arith) in
    elim (Bool-cases (ltb bound (length marks))) [
      | inl over ↦ rw over (Past-evict start k (length marks - bound) marks q)
      | inr within ↦ rw within q
    ]

bump_epoch-Past_self :
    (bound start : ℕ) (k : Text) (es : Epochs)
    → start ≤ es.epoch_counter
    → JsMap.Distinct es.invalidation_epochs
    → Past start k (bump_epoch bound k es).invalidation_epochs
unfolding bump_epoch
bump_epoch-Past_self bound start k es le d =
    let marks = JsMap.set es.invalidation_epochs k (es.epoch_counter + 1) in
    let q : Past start k marks =
      Past-set_self start k (es.epoch_counter + 1) es.invalidation_epochs d (omega arith) in
    elim (Bool-cases (ltb bound (length marks))) [
      | inl over ↦ rw over (Past-evict start k (length marks - bound) marks q)
      | inr within ↦ rw within q
    ]

bump_all-Past :
    (bound start : ℕ) (ks : List Text) (k : Text) (es : Epochs)
    → start ≤ es.epoch_counter
    → Past start k es.invalidation_epochs
    → Past start k (bump_all bound ks es).invalidation_epochs
unfolding bump_all
bump_all-Past bound start [] k es le p = p
bump_all-Past bound start (j ∷ ks) k es le p =
    bump_all-Past bound start ks k (bump_epoch bound j es) (unfold bump_epoch in omega arith)
      (bump_epoch-Past bound start j k es le p)

pub bump_all-Past_self :
    (bound start : ℕ) (ks : List Text) (k : Text) (es : Epochs)
    → start ≤ es.epoch_counter
    → IsValid bound es
    → JsSet.has ks k ≡ true
    → Past start k (bump_all bound ks es).invalidation_epochs
unfolding bump_all JsSet.has
bump_all-Past_self bound start [] k es le v h = cc
bump_all-Past_self bound start (j ∷ ks) k es le v h = elim (Bool-cases (text_eq j k)) [
  | inl same ↦ rw ((text_eq_iff j k).0 same) (
      bump_all-Past bound start ks k (bump_epoch bound k es) (unfold bump_epoch in omega arith)
        (bump_epoch-Past_self bound start k es le v.distinct))
  | inr other ↦
      bump_all-Past_self bound start ks k (bump_epoch bound j es) (unfold bump_epoch in omega arith)
        (bump_epoch-IsValid bound j es v) (ground arith)
]
