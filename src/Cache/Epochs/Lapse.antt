-- ===== src/Cache/Epochs/Lapse.antt =====
-- The bound of the fence is exact: with one more invalidation than the map holds, the epoch is
-- evicted and reads as if the key had never been invalidated.
use safecache.Base.{
  ℕ, zero, suc, ◌+◌, ◌-◌, ◌≤◌, ◌≡◌, refl, inl, inr, none, some, List, [], ◌∷◌, arith, length, All,
  false, Option-cases,
}
use safecache.Text.{Text, text_has_eq, text_eq, text_eq_iff}
use safecache.JsMap
use safecache.JsMap.{JsMap, get-set, length-set, not_has_of_get}
use safecache.JsSet
use safecache.Cache.Epochs.{Epochs, current_epoch, evict, bump_epoch, bump_all}
use safecache.Cache.Epochs.Bounds.{IsValid, bump_epoch-IsValid, bump_all-IsValid}
use safecache.Cache.Epochs.Younger.{younger, younger-lt, younger-set, younger-set_self}
use safecache.Cache.Epochs.Fence.{get-evict_absent, bump_epoch_absent}

-- No key twice in a list.
abbrev pub AllDifferent : List Text → Type 0
AllDifferent [] = Unit
AllDifferent (k ∷ ks) = (JsSet.has ks k ≡ false) × AllDifferent ks

younger-evict :
    (n : ℕ) (m : JsMap Text ℕ) (k : Text) (v : ℕ)
    → JsMap.Distinct m
    → JsMap.get (evict n m) k ≡ some v
    → younger (evict n m) k ≡ younger m k
unfolding younger JsMap.get evict
younger-evict zero m k v d e = refl
younger-evict (suc n) [] k v d e = refl
younger-evict (suc n) ((i, w) ∷ m) k v d e =
    ground (arith, younger-evict n m k v, text_eq_iff i k, get-evict_absent n m k)

-- The key is gone, or `n` entries are younger.
Aging : ℕ → Text → Epochs → Type 0
Aging n k es =
    (v : ℕ) → JsMap.get es.invalidation_epochs k ≡ some v → younger es.invalidation_epochs k ≡ n

bump_epoch-Aging :
    (bound n : ℕ) (j k : Text) (es : Epochs)
    → IsValid bound es
    → JsMap.get es.invalidation_epochs j ≡ none
    → text_eq j k ≡ false
    → Aging n k es
    → Aging (suc n) k (bump_epoch bound j es)
unfolding Aging bump_epoch
bump_epoch-Aging bound n j k es valid absent other aging v e =
    elim (Option-cases (JsMap.get es.invalidation_epochs k)) [
      | inl gone ↦ cc (bump_epoch_absent bound j k es other gone)
      | inr (u, there) ↦
          let m = es.invalidation_epochs in
          let marks = JsMap.set m j (es.epoch_counter + 1) in
          let y : younger marks k ≡ suc n = ground (
            arith,
            younger-set m j k (es.epoch_counter + 1) u,
            length-set m j (es.epoch_counter + 1),
            not_has_of_get m j,
            aging u there,
          ) in
          let d : JsMap.Distinct marks =
            JsMap.Distinct-set m j (es.epoch_counter + 1) valid.distinct in
          ground (arith, younger-evict (length marks - bound) marks k v d)
    ]

-- None of the keys has an epoch.
abbrev Unmarked : List Text → Epochs → Type 0
Unmarked ks es = All (λ j. JsMap.get es.invalidation_epochs j ≡ none) ks

bump_epoch-Unmarked :
    (bound : ℕ) (j : Text) (ks : List Text) (es : Epochs)
    → JsSet.has ks j ≡ false
    → Unmarked ks es
    → Unmarked ks (bump_epoch bound j es)
unfolding JsSet.has
bump_epoch-Unmarked bound j [] es h u = tt
bump_epoch-Unmarked bound j (i ∷ ks) es h u = (
  bump_epoch_absent bound j i es (ground (arith, text_eq_iff i j, text_eq_iff j i)) u.0,
  bump_epoch-Unmarked bound j ks es (ground arith) u.1,
)

bump_all-Aging :
    (bound n : ℕ) (ks : List Text) (k : Text) (es : Epochs)
    → IsValid bound es
    → AllDifferent ks
    → Unmarked ks es
    → JsSet.has ks k ≡ false
    → Aging n k es
    → Aging (n + length ks) k (bump_all bound ks es)
unfolding bump_all JsSet.has
bump_all-Aging bound n [] k es v d u h a = unfold Aging in λ w e. omega (arith, a w e)
bump_all-Aging bound n (j ∷ ks) k es v d u h a =
    let e : n + suc (length ks) ≡ suc n + length ks = omega arith in
    rw e (
      bump_all-Aging bound (suc n) ks k (bump_epoch bound j es) (bump_epoch-IsValid bound j es v)
        d.1 (bump_epoch-Unmarked bound j ks es d.0 u.1) (ground arith)
        (bump_epoch-Aging bound n j k es v u.0 (ground arith) a))

bump_epoch-Aging_self :
    (bound : ℕ) (k : Text) (es : Epochs)
    → IsValid bound es
    → JsMap.get es.invalidation_epochs k ≡ none
    → Aging 0 k (bump_epoch bound k es)
unfolding Aging bump_epoch
bump_epoch-Aging_self bound k es valid absent v e =
    let marks = JsMap.set es.invalidation_epochs k (es.epoch_counter + 1) in
    let d : JsMap.Distinct marks =
      JsMap.Distinct-set es.invalidation_epochs k (es.epoch_counter + 1) valid.distinct in
    ground (
      arith,
      younger-evict (length marks - bound) marks k v d,
      younger-set_self es.invalidation_epochs k (es.epoch_counter + 1) absent,
    )

-- In valid epochs, if a key without an epoch is invalidated, and then as many other keys without one as the map
-- holds, the current epoch of the key is again what it was before it was invalidated: a write
-- that captured its epoch before all of these is not fenced out.
pub fence_lapses :
    (bound : ℕ) (k : Text) (others : List Text) (es : Epochs)
    → IsValid bound es
    → AllDifferent (k ∷ others)
    → Unmarked (k ∷ others) es
    → bound ≤ length others
    → current_epoch (bump_all bound (k ∷ others) es) k ≡ current_epoch es k
unfolding current_epoch bump_all Aging
fence_lapses bound k others es v d u le =
    let once = bump_epoch bound k es in
    let v' : IsValid bound once = bump_epoch-IsValid bound k es v in
    let after = bump_all bound others once in
    let aged : Aging (0 + length others) k after =
      bump_all-Aging bound 0 others k once v' d.1 (bump_epoch-Unmarked bound k others es d.0 u.1)
        d.0 (bump_epoch-Aging_self bound k es v u.0) in
    elim (Option-cases (JsMap.get after.invalidation_epochs k)) [
      | inl gone ↦ rw (gone, u.0)
      | inr (w, there) ↦ absurd (
          omega (
            arith,
            younger-lt after.invalidation_epochs k w there,
            aged w there,
            (bump_all-IsValid bound others once v').fits,
          ))
    ]
