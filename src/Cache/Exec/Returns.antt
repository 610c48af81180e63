-- ===== src/Cache/Exec/Returns.antt =====
-- Total correctness of actions: an action returns, from every state, a value that satisfies `P`.
use safecache.Base.{◌≡◌, refl, subst}
use safecache.Result.{Result, ok, throw}
use safecache.Cache.Types.{Error}
use safecache.Cache.Exec.{Exec, pure, gets, update, attempt, modify, lift, ◌>>=◌}

pub record Returns {ℓ κ μ} {S : Type ℓ} {A : Type κ} (P : A → Type μ) (m : Exec S A)
    : Type (ℓ ⊔ κ ⊔ μ) where
  pub value : (s : S) → (a : A) × ((m s).0 ≡ ok a) × P a

module _ {ℓ κ μ} {S : Type ℓ} {A : Type κ} {P : A → Type μ} where
  pub Returns-pure : (a : A) → P a → Returns P (pure {S = S} a)
  unfolding pure
  Returns-pure a p = record { value = λ s. (a, refl, p) }

-- The value may be anything.
abbrev pub Anything {κ} : {A : Type κ} → A → Type 0
Anything a = Unit

module _ {ℓ κ} {S : Type ℓ} {A : Type κ} where
  pub Returns-gets : (f : S → A) → Returns Anything (gets f)
  unfolding gets
  Returns-gets f = record { value = λ s. (f s, refl, tt) }

  pub Returns-update : (f : S → A × S) → Returns Anything (update f)
  unfolding update
  Returns-update f = record { value = λ s. ((f s).0, refl, tt) }

  pub Returns-attempt : (m : Exec S A) → Returns Anything (attempt m)
  unfolding attempt
  Returns-attempt m = record { value = λ s. ((m s).0, refl, tt) }

module _ {ℓ} {S : Type ℓ} where
  pub Returns-modify : (f : S → S) → Returns Anything (modify f)
  unfolding modify
  Returns-modify f = record { value = λ s. (tt, refl, tt) }

module _ {ℓ κ κ' ν} {S : Type ℓ} {A : Type κ} {B : Type κ'} {Q : B → Type ν} where
  returned_next :
      (r : Result Error A) (f : A → Exec S B) (a : A)
      → r ≡ ok a
      → Returns Q (f a)
      → (s : S) → (b : B) × (((lift r >>= f) s).0 ≡ ok b) × Q b
  unfolding ◌>>=◌ lift
  returned_next (ok a') f a e n s =
      let same : a ≡ a' = cc in (subst (λ x. Returns Q (f x)) same n).value s
  returned_next (throw x) f a e n s = absurd (cc)

module _ {ℓ κ κ' μ ν} {S : Type ℓ} {A : Type κ} {B : Type κ'} {P : A → Type μ}
    {Q : B → Type ν} where
  pub Returns-bind :
      (m : Exec S A) (f : A → Exec S B)
      → Returns P m
      → ((a : A) → P a → Returns Q (f a))
      → Returns Q (m >>= f)
  unfolding ◌>>=◌ lift
  Returns-bind m f rm rf = record {
    value = λ s. let (a, e, p) = rm.value s in returned_next (m s).0 f a e (rf a p) (m s).1;
  }
