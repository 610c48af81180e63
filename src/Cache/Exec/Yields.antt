-- ===== src/Cache/Exec/Yields.antt =====
-- What an action returns, when it starts in a state that satisfies an invariant.
use safecache.Base.{◌≡◌, refl, subst}
use safecache.Result.{Result, ok, throw}
use safecache.Cache.Types.{Error}
use safecache.Cache.Exec.{Exec, pure, raise, gets, attempt, lift, ◌>>=◌}
use safecache.Cache.Exec.Rules.{Preserves}

-- Started where `I` holds, the action returns nothing but what satisfies `Q`.
pub record Yields {ℓ κ μ ν} {S : Type ℓ} {A : Type κ} (I : S → Type μ) (Q : A → Type ν)
    (act : Exec S A) : Type (ℓ ⊔ κ ⊔ μ ⊔ ν) where
  pub returned : (st : S) → I st → (a : A) → (act st).0 ≡ ok a → Q a

-- The outcome, if it is a value, satisfies `Q`.
abbrev pub OkAll {κ ν} : {A : Type κ} → (A → Type ν) → Result Error A → Type ν
OkAll Q (ok a) = Q a
OkAll Q (throw e) = Unit

outcome_fits {κ ν} :
    {A : Type κ} {Q : A → Type ν} (r : Result Error A) → ((a : A) → r ≡ ok a → Q a) → OkAll Q r
outcome_fits (ok a) q = q a refl
outcome_fits (throw e) q = tt

module _ {ℓ κ μ ν} {S : Type ℓ} {A : Type κ} {I : S → Type μ} {Q : A → Type ν} where
  pub Yields-pure : (a : A) → Q a → Yields I Q (pure a)
  unfolding pure
  Yields-pure a q = record { returned = λ st held a' h. subst Q (cc) q }

  pub Yields-raise : (e : Error) → Yields I Q (raise e)
  unfolding raise
  Yields-raise e = record { returned = λ st held a' h. cc }

  pub Yields-gets : (f : S → A) → ((st : S) → I st → Q (f st)) → Yields I Q (gets f)
  unfolding gets
  Yields-gets f q = record { returned = λ st held a' h. subst Q (cc) (q st held) }

  pub Yields-attempt : (act : Exec S A) → Yields I Q act → Yields I (OkAll Q) (attempt act)
  unfolding attempt
  Yields-attempt act y = record {
    returned = λ st held r h. subst (OkAll Q) (cc) (outcome_fits (act st).0 (y.returned st held));
  }

module _ {ℓ κ κ' μ ν ν'} {S : Type ℓ} {A : Type κ} {B : Type κ'} {I : S → Type μ} {R : A → Type ν}
    {Q : B → Type ν'} where
  next_value :
      (r : Result Error A) (next : A → Exec S B)
      → OkAll R r
      → ((a : A) → R a → Yields I Q (next a))
      → Yields I Q (lift r >>= next)
  unfolding ◌>>=◌ lift
  next_value (ok a) next fits k = record {
    returned = λ st held b h. (k a fits).returned st held b h;
  }
  next_value (throw e) next fits k = record { returned = λ st held b h. cc }

  pub Yields-bind :
      (act : Exec S A) (next : A → Exec S B)
      → Preserves I act
      → Yields I R act
      → ((a : A) → R a → Yields I Q (next a))
      → Yields I Q (act >>= next)
  unfolding ◌>>=◌ lift
  Yields-bind act next keeps y k = record {
    returned = λ st held.
        let (r, after) = act st in
        (next_value r next (outcome_fits r (y.returned st held)) k).returned after
          (keeps.through st held);
  }

module _ {ℓ κ κ' μ ν} {S : Type ℓ} {A : Type κ} {B : Type κ'} {I : S → Type μ}
    {R : A → Type ν} where
  next_held :
      (r : Result Error A) (next : A → Exec S B)
      → OkAll R r
      → ((a : A) → R a → Preserves I (next a))
      → Preserves I (lift r >>= next)
  unfolding ◌>>=◌ lift
  next_held (ok a) next fits k = record { through = λ st held. (k a fits).through st held }
  next_held (throw e) next fits k = record { through = λ st held. held }

  -- What the first action returns is known when the second runs.
  pub Preserves-bind_known :
      (act : Exec S A) (next : A → Exec S B)
      → Preserves I act
      → Yields I R act
      → ((a : A) → R a → Preserves I (next a))
      → Preserves I (act >>= next)
  unfolding ◌>>=◌ lift
  Preserves-bind_known act next keeps y k = record {
    through = λ st held.
        let (r, after) = act st in
        (next_held r next (outcome_fits r (y.returned st held)) k).through after
          (keeps.through st held);
  }

-- Any action returns something.
pub Yields-any {ℓ κ μ} :
    {S : Type ℓ} {A : Type κ} {I : S → Type μ} (act : Exec S A) → Yields I (λ _. Unit {0}) act
Yields-any act = record { returned = λ st held a h. tt }
