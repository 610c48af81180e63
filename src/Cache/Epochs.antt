-- ===== src/Cache/Epochs.antt =====
-- The invalidation epochs of packages/core/src/cache.ts: a counter, and for each scoped key the
-- epoch of its latest invalidation, in a map of bounded size. The bound is an argument, so that
-- the laws can be stated and run for any bound; the cache passes `max_invalidation_epochs`.
pub mod Bounds
pub mod Younger
pub mod Past
pub mod Fence
pub mod Lapse
use safecache.Base.{
  ℕ, zero, suc, ◌+◌, ◌-◌, Option, none, some, List, [], ◌∷◌, ltb, if◌then◌else◌, length,
}
use safecache.Text.{Text, text_has_eq}
use safecache.JsMap
use safecache.JsMap.{JsMap}

abbrev pub max_invalidation_epochs : ℕ
max_invalidation_epochs = 5000

pub record Epochs : Type 0 where
  pub epoch_counter : ℕ
  pub invalidation_epochs : JsMap Text ℕ

abbrev pub no_epochs : Epochs
no_epochs = record { epoch_counter = 0; invalidation_epochs = [] }

-- `m.get(k) ?? 0`
abbrev pub or_zero : Option ℕ → ℕ
or_zero none = 0
or_zero (some n) = n

unfoldable pub current_epoch : Epochs → Text → ℕ
current_epoch es scoped_key = or_zero (JsMap.get es.invalidation_epochs scoped_key)

-- The eviction loop: the oldest `overflow` entries are deleted.
unfoldable pub evict {ℓ κ} : {K : Type ℓ} {V : Type κ} → ℕ → JsMap K V → JsMap K V
evict zero m = m
evict (suc n) [] = []
evict (suc n) (entry ∷ m) = evict n m

unfoldable pub bump_epoch : ℕ → Text → Epochs → Epochs
unfolding evict
bump_epoch bound scoped_key es =
    let count = es.epoch_counter + 1 in
    let marks = JsMap.set es.invalidation_epochs scoped_key count in
    record {
      epoch_counter = count;
      invalidation_epochs =
          if ltb bound (length marks) then evict (length marks - bound) marks else marks;
    }

unfoldable pub bump_all : ℕ → List Text → Epochs → Epochs
bump_all bound [] es = es
bump_all bound (k ∷ ks) es = bump_all bound ks (bump_epoch bound k es)
