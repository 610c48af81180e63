-- ===== src/JsSet.antt =====
-- JavaScript's `Set`: members in insertion order.
use safecache.Base.{
  ◌≡◌, Bool, false, ◌&&◌, ◌||◌, not, List, [], ◌∷◌, arith, Eq, ◌==◌, if◌then◌else◌,
}

module _ {ℓ} {K : Type ℓ} ⦃e : Eq K⦄ where
  unfoldable pub has : List K → K → Bool
  has [] k = false
  has (x ∷ xs) k = x == k || has xs k

  unfoldable pub add : List K → K → List K
  add [] k = k ∷ []
  add (x ∷ xs) k = if x == k then x ∷ xs else x ∷ add xs k

  unfoldable pub delete : List K → K → List K
  delete [] k = []
  delete (x ∷ xs) k = if x == k then delete xs k else x ∷ delete xs k

  pub has-add : (xs : List K) (k j : K) → has (add xs k) j ≡ (k == j || has xs j)
  unfolding has add
  has-add [] k j = ground arith
  has-add (x ∷ xs) k j =
      ground (arith, has-add xs k j, e.same_iff x k, e.same_iff x j, e.same_iff k j)

  pub has-delete : (xs : List K) (k j : K) → has (delete xs k) j ≡ (not (k == j) && has xs j)
  unfolding has delete
  has-delete [] k j = ground arith
  has-delete (x ∷ xs) k j =
      ground (arith, has-delete xs k j, e.same_iff x k, e.same_iff x j, e.same_iff k j)
