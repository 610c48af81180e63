-- ===== src/Cache/Epochs/Younger.antt =====
-- Where an epoch stands in the map, and how long evictions leave it there.
use safecache.Base.{
  ℕ, zero, suc, ◌+◌, ◌-◌, ◌≤◌, ◌<◌, ◌≡◌, refl, none, some, List, [], ◌∷◌, ltb, arith, if◌then◌else◌,
  length,
}
use safecache.Text.{Text, text_has_eq, text_eq, text_eq_iff}
use safecache.JsMap
use safecache.JsMap.{JsMap, get-set, length-set}
use safecache.Cache.Epochs.{Epochs, evict, bump_epoch, bump_all}
use safecache.Cache.Epochs.Bounds.{IsValid, bump_epoch-IsValid}

-- How many entries are younger than the key's.
unfoldable pub younger : JsMap Text ℕ → Text → ℕ
younger [] k = 0
younger ((j, v) ∷ m) k = if text_eq j k then length m else younger m k

pub younger-set_self :
    (m : JsMap Text ℕ) (k : Text) (n : ℕ) → JsMap.get m k ≡ none → younger (JsMap.set m k n) k ≡ 0
unfolding younger JsMap.get JsMap.set
younger-set_self [] k n e = ground (arith, text_eq_iff k k)
younger-set_self ((j, w) ∷ m) k n e = ground (arith, younger-set_self m k n)

pub younger-set :
    (m : JsMap Text ℕ) (j k : Text) (n v : ℕ)
    → JsMap.get m k ≡ some v
    → (younger (JsMap.set m j n) k + length m ≡ younger m k + length (JsMap.set m j n))
unfolding younger JsMap.get JsMap.set
younger-set [] j k n v e = cc
younger-set ((i, w) ∷ m) j k n v e =
    ground (arith, younger-set m j k n v, text_eq_iff i j, text_eq_iff i k, length-set m j n)

pub younger-lt :
    (m : JsMap Text ℕ) (k : Text) (v : ℕ) → JsMap.get m k ≡ some v → younger m k < length m
unfolding younger JsMap.get
younger-lt [] k v e = cc
younger-lt ((i, w) ∷ m) k v e = ground (arith, younger-lt m k v)

-- What is evicted stands before the key.
get-evict :
    (n : ℕ) (m : JsMap Text ℕ) (k : Text) (v : ℕ)
    → JsMap.get m k ≡ some v
    → younger m k + n < length m
    → (JsMap.get (evict n m) k ≡ some v) × (younger (evict n m) k ≡ younger m k)
unfolding younger JsMap.get evict
get-evict zero m k v e h = (e, refl)
get-evict (suc n) [] k v e h = cc
get-evict (suc n) ((i, w) ∷ m) k v e h = ground (arith, get-evict n m k v)

-- The key has an epoch above `start`, and `left` more invalidations cannot evict it.
pub record IsFenced (bound start left : ℕ) (k : Text) (es : Epochs) : Type 0 where
  pub epoch : ℕ
  pub found : JsMap.get es.invalidation_epochs k ≡ some epoch
  pub late : start < epoch
  pub ahead : start ≤ es.epoch_counter
  pub room : younger es.invalidation_epochs k + left < bound
  pub valid : IsValid bound es

module _ (bound start left : ℕ) (k : Text) (m marks : JsMap Text ℕ) (n : ℕ) where
  -- the entry that stays behind after an eviction
  kept :
      (v : ℕ)
      → JsMap.get marks k ≡ some v
      → younger marks k + left < bound
      → length marks ≤ bound + 1
      → (JsMap.get
            (if ltb bound (length marks) then evict (length marks - bound) marks else marks)
            k
          ≡ some v)
        × (younger
                (if ltb bound (length marks) then evict (length marks - bound) marks else marks)
                k
              + left
            < bound)
  kept v e room size = ground (arith, get-evict (length marks - bound) marks k v)

pub bump_epoch-IsFenced :
    (bound start left : ℕ) (j k : Text) (es : Epochs)
    → IsFenced bound start (suc left) k es
    → IsFenced bound start left k (bump_epoch bound j es)
bump_epoch-IsFenced bound start left j k es f =
    let m = es.invalidation_epochs in
    let n = es.epoch_counter + 1 in
    let v : ℕ = if text_eq j k then n else f.epoch in
    let e : JsMap.get (JsMap.set m j n) k ≡ some v = ground (arith, get-set m j k n, f.found) in
    let p : younger (JsMap.set m j n) k + left < bound =
      ground (arith, younger-set m j k n f.epoch, f.found, f.room, length-set m j n) in
    let (q, r) =
      kept bound start left k m (JsMap.set m j n) n v e p
        (ground (arith, length-set m j n, f.valid)) in
    record {
      epoch = v;
      found = unfold bump_epoch in q;
      late = ground (arith, f.late, f.ahead);
      ahead = unfold bump_epoch in omega (arith, f.ahead);
      room = unfold bump_epoch in r;
      valid = bump_epoch-IsValid bound j es f.valid;
    }

-- The first invalidation of a key that has no epoch.
pub bump_epoch-starts :
    (bound left : ℕ) (k : Text) (es : Epochs)
    → IsValid bound es
    → JsMap.get es.invalidation_epochs k ≡ none
    → left < bound
    → IsFenced bound 0 left k (bump_epoch bound k es)
bump_epoch-starts bound left k es valid absent h =
    let m = es.invalidation_epochs in
    let n = es.epoch_counter + 1 in
    let e : JsMap.get (JsMap.set m k n) k ≡ some n =
      ground (arith, get-set m k k n, text_eq_iff k k) in
    let p : younger (JsMap.set m k n) k + left < bound =
      omega (arith, younger-set_self m k n absent) in
    let (q, r) =
      kept bound 0 left k m (JsMap.set m k n) n n e p (ground (arith, length-set m k n, valid)) in
    record {
      epoch = n;
      found = unfold bump_epoch in q;
      late = omega arith;
      ahead = omega arith;
      room = unfold bump_epoch in r;
      valid = bump_epoch-IsValid bound k es valid;
    }

pub bump_all-IsFenced :
    (bound start : ℕ) (ks : List Text) (k : Text) (es : Epochs)
    → IsFenced bound start (length ks) k es
    → IsFenced bound start 0 k (bump_all bound ks es)
unfolding bump_all
bump_all-IsFenced bound start [] k es f = f
bump_all-IsFenced bound start (j ∷ ks) k es f =
    bump_all-IsFenced bound start ks k (bump_epoch bound j es)
      (bump_epoch-IsFenced bound start (length ks) j k es f)
