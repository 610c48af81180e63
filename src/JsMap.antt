-- ===== src/JsMap.antt =====
-- JavaScript's `Map`: entries in insertion order. Setting a key that is present keeps its
-- place; a new key goes to the end; iteration yields the oldest first.
use safecache.Base.{
  ◌≡◌, refl, Bool, false, ◌||◌, List, [], ◌∷◌, Option, none, some, arith, Eq, ◌==◌, if◌then◌else◌,
  length, ◌≤◌, suc,
}

abbrev pub JsMap {ℓ κ} : Type ℓ → Type κ → Type (ℓ ⊔ κ)
JsMap K V = List (K × V)

module _ {ℓ κ} {K : Type ℓ} {V : Type κ} ⦃e : Eq K⦄ where
  unfoldable pub get : JsMap K V → K → Option V
  get [] k = none
  get ((j, v) ∷ m) k = if j == k then some v else get m k

  -- m.has(k)
  unfoldable pub has : JsMap K V → K → Bool
  has [] k = false
  has ((j, v) ∷ m) k = j == k || has m k

  unfoldable pub set : JsMap K V → K → V → JsMap K V
  set [] k v = (k, v) ∷ []
  set ((j, w) ∷ m) k v = if j == k then (j, v) ∷ m else (j, w) ∷ set m k v

  unfoldable pub delete : JsMap K V → K → JsMap K V
  delete [] k = []
  delete ((j, w) ∷ m) k = if j == k then delete m k else (j, w) ∷ delete m k

  pub get-set :
      (m : JsMap K V) (k j : K) (v : V) → get (set m k v) j ≡ (if k == j then some v else get m j)
  unfolding get set
  get-set [] k j v = ground arith
  get-set ((i, w) ∷ m) k j v =
      ground (arith, get-set m k j v, e.same_iff i k, e.same_iff i j, e.same_iff k j)

  pub get-delete :
      (m : JsMap K V) (k j : K) → get (delete m k) j ≡ (if k == j then none else get m j)
  unfolding get delete
  get-delete [] k j = ground arith
  get-delete ((i, w) ∷ m) k j =
      ground (arith, get-delete m k j, e.same_iff i k, e.same_iff i j, e.same_iff k j)

  -- a write grows the map by one entry, and only for a new key
  pub length-set :
      (m : JsMap K V) (k : K) (v : V)
      → length (set m k v) ≡ (if has m k then length m else suc (length m))
  unfolding has set
  length-set [] k v = refl
  length-set ((i, w) ∷ m) k v = ground (arith, length-set m k v)

  pub length-delete-le : (m : JsMap K V) (k : K) → length (delete m k) ≤ length m
  unfolding delete
  length-delete-le [] k = omega arith
  length-delete-le ((i, w) ∷ m) k = ground (arith, length-delete-le m k)

  pub not_has_of_get : (m : JsMap K V) (k : K) → get m k ≡ none → has m k ≡ false
  unfolding has get
  not_has_of_get [] k h = refl
  not_has_of_get ((i, w) ∷ m) k h = ground (arith, not_has_of_get m k)

  -- no key twice, as in every `Map`
  abbrev pub Distinct : JsMap K V → Type (ℓ ⊔ κ)
  Distinct [] = Unit
  Distinct ((j, v) ∷ m) = (get m j ≡ none) × Distinct m

  pub Distinct-set : (m : JsMap K V) (k : K) (v : V) → Distinct m → Distinct (set m k v)
  unfolding set get
  Distinct-set [] k v d = (refl, tt)
  Distinct-set ((j, w) ∷ m) k v d =
      ground (arith, Distinct-set m k v d.1, get-set m k j v, e.same_iff j k, e.same_iff k j)
