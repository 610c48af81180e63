-- ===== src/Cache/Epochs/Fence.antt =====
-- The fence: an epoch that was captured before an invalidation differs from the current one
-- after it, as long as no more invalidations run than the map holds.
use safecache.Base.{
  ℕ, zero, suc, ◌+◌, ◌-◌, ◌≤◌, ◌≡◌, ◌≢◌, refl, inl, inr, none, List, [], ◌∷◌, arith, length, true,
  false, Bool-cases, Option-cases,
}
use safecache.Text.{Text, text_has_eq, text_eq, text_eq_iff}
use safecache.JsMap
use safecache.JsMap.{JsMap, get-set, length-set}
use safecache.JsSet
use safecache.Cache.Epochs.{Epochs, current_epoch, evict, bump_epoch, bump_all}
use safecache.Cache.Epochs.Bounds.{IsValid, get-UpTo, bump_epoch-IsValid}
use safecache.Cache.Epochs.Past.{get-Past, bump_all-Past_self}
use safecache.Cache.Epochs.Younger.{IsFenced, bump_epoch-starts, bump_all-IsFenced}

pub get-evict_absent :
    (n : ℕ) (m : JsMap Text ℕ) (k : Text) → JsMap.get m k ≡ none → JsMap.get (evict n m) k ≡ none
unfolding JsMap.get evict
get-evict_absent zero m k e = e
get-evict_absent (suc n) [] k e = refl
get-evict_absent (suc n) ((j, w) ∷ m) k e = ground (arith, get-evict_absent n m k)

pub bump_epoch_absent :
    (bound : ℕ) (j k : Text) (es : Epochs)
    → text_eq j k ≡ false
    → JsMap.get es.invalidation_epochs k ≡ none
    → JsMap.get (bump_epoch bound j es).invalidation_epochs k ≡ none
unfolding bump_epoch
bump_epoch_absent bound j k es other absent =
    let marks = JsMap.set es.invalidation_epochs j (es.epoch_counter + 1) in
    let e : JsMap.get marks k ≡ none =
      ground (arith, get-set es.invalidation_epochs j k (es.epoch_counter + 1)) in
    ground (arith, get-evict_absent (length marks - bound) marks k e)

-- A key with no epoch gets one, and keeps it.
fence_absent :
    (bound : ℕ) (ks : List Text) (k : Text) (es : Epochs)
    → IsValid bound es
    → JsMap.get es.invalidation_epochs k ≡ none
    → JsSet.has ks k ≡ true
    → length ks ≤ bound
    → IsFenced bound 0 0 k (bump_all bound ks es)
unfolding bump_all JsSet.has
fence_absent bound [] k es v absent h le = cc
fence_absent bound (j ∷ ks) k es v absent h le = elim (Bool-cases (text_eq j k)) [
  | inl same ↦ rw ((text_eq_iff j k).0 same) (
      bump_all-IsFenced bound 0 ks k (bump_epoch bound k es)
        (bump_epoch-starts bound (length ks) k es v absent (omega arith)))
  | inr other ↦
      fence_absent bound ks k (bump_epoch bound j es) (bump_epoch-IsValid bound j es v)
        (bump_epoch_absent bound j k es other absent) (ground arith) (omega arith)
]

-- In valid epochs, one that was captured before the key was invalidated is never current afterwards,
-- whatever other invalidations ran in between, as long as there are no more of them than the map
-- of epochs holds.
pub fence :
    (bound : ℕ) (ks : List Text) (k : Text) (es : Epochs)
    → IsValid bound es
    → JsSet.has ks k ≡ true
    → length ks ≤ bound
    → current_epoch (bump_all bound ks es) k ≢ current_epoch es k
unfolding current_epoch
fence bound ks k es v h le same = elim (Option-cases (JsMap.get es.invalidation_epochs k)) [
  | inl absent ↦ let f = fence_absent bound ks k es v absent h le in ground (arith, f.found, f.late)
  | inr (e, present) ↦
      elim (Option-cases (JsMap.get (bump_all bound ks es).invalidation_epochs k)) [
        | inl gone ↦ ground (arith, get-UpTo es.epoch_counter es.invalidation_epochs k e v.issued)
        | inr (e', renewed) ↦ ground (
          arith,
          get-UpTo es.epoch_counter es.invalidation_epochs k e v.issued,
          get-Past es.epoch_counter k (bump_all bound ks es).invalidation_epochs e'
              (bump_all-Past_self bound es.epoch_counter ks k es (omega arith) v h),
        )
      ]
]
