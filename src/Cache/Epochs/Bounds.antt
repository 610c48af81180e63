-- ===== src/Cache/Epochs/Bounds.antt =====
-- The map of epochs never outgrows its bound, and no epoch is ahead of the counter.
use safecache.Base.{ℕ, zero, suc, ◌+◌, ◌-◌, ◌≤◌, ◌<◌, ◌≡◌, some, List, [], ◌∷◌, arith, length, All}
use safecache.Text.{Text, text_has_eq}
use safecache.JsMap
use safecache.JsMap.{JsMap}
use safecache.Cache.Epochs.{Epochs, evict, bump_epoch, bump_all}

-- Every epoch in the map was handed out: it is positive and at most `count`.
abbrev pub UpTo : ℕ → JsMap Text ℕ → Type 0
UpTo count = All (λ entry. (0 < entry.1) × (entry.1 ≤ count))

pub record IsValid (bound : ℕ) (es : Epochs) : Type 0 where
  pub fits : length es.invalidation_epochs ≤ bound
  pub issued : UpTo es.epoch_counter es.invalidation_epochs
  pub distinct : JsMap.Distinct es.invalidation_epochs

UpTo-mono : (a b : ℕ) (m : JsMap Text ℕ) → a ≤ b → UpTo a m → UpTo b m
UpTo-mono a b [] le h = tt
UpTo-mono a b (entry ∷ m) le h = ((h.0.0, omega arith), UpTo-mono a b m le h.1)

UpTo-set :
    (count : ℕ) (m : JsMap Text ℕ) (k : Text) (n : ℕ)
    → UpTo count m
    → 0 < n
    → n ≤ count
    → UpTo count (JsMap.set m k n)
unfolding JsMap.set
UpTo-set count [] k n h p q = ((p, q), tt)
UpTo-set count ((j, w) ∷ m) k n h p q = ground (arith, UpTo-set count m k n h.1 p q)

UpTo-evict : (count n : ℕ) (m : JsMap Text ℕ) → UpTo count m → UpTo count (evict n m)
unfolding evict
UpTo-evict count zero m h = h
UpTo-evict count (suc n) [] h = tt
UpTo-evict count (suc n) (entry ∷ m) h = UpTo-evict count n m h.1

Distinct-evict : (n : ℕ) (m : JsMap Text ℕ) → JsMap.Distinct m → JsMap.Distinct (evict n m)
unfolding evict
Distinct-evict zero m d = d
Distinct-evict (suc n) [] d = d
Distinct-evict (suc n) (entry ∷ m) d = Distinct-evict n m d.1

pub length-evict : (n : ℕ) (m : JsMap Text ℕ) → length (evict n m) ≡ length m - n
unfolding evict
length-evict zero m = omega arith
length-evict (suc n) [] = omega arith
length-evict (suc n) (entry ∷ m) = omega (arith, length-evict n m)

pub get-UpTo :
    (count : ℕ) (m : JsMap Text ℕ) (k : Text) (v : ℕ)
    → UpTo count m
    → JsMap.get m k ≡ some v
    → (0 < v) × (v ≤ count)
unfolding JsMap.get
get-UpTo count [] k v h e = cc
get-UpTo count ((j, w) ∷ m) k v h e = ground (arith, get-UpTo count m k v h.1)

pub bump_epoch-IsValid :
    (bound : ℕ) (k : Text) (es : Epochs) → IsValid bound es → IsValid bound (bump_epoch bound k es)
unfolding bump_epoch
bump_epoch-IsValid bound k es v =
    let n = es.epoch_counter + 1 in
    let m = JsMap.set es.invalidation_epochs k n in
    let h : UpTo n m =
      UpTo-set n es.invalidation_epochs k n
        (UpTo-mono es.epoch_counter n es.invalidation_epochs (omega arith) v.issued) (omega arith)
        (omega arith) in
    let d : JsMap.Distinct m = JsMap.Distinct-set es.invalidation_epochs k n v.distinct in
    ground (
      arith,
      length-evict (length m - bound) m,
      UpTo-evict n (length m - bound) m h,
      Distinct-evict (length m - bound) m d,
    )

-- Any invalidations keep valid epochs valid: at most `bound` of them, all of them issued, and no
-- key twice.
pub bump_all-IsValid :
    (bound : ℕ) (ks : List Text) (es : Epochs)
    → IsValid bound es
    → IsValid bound (bump_all bound ks es)
unfolding bump_all
bump_all-IsValid bound [] es v = v
bump_all-IsValid bound (k ∷ ks) es v =
    bump_all-IsValid bound ks (bump_epoch bound k es) (bump_epoch-IsValid bound k es v)
