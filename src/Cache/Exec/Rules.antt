-- ===== src/Cache/Exec/Rules.antt =====
-- Two judgements on actions, with one rule for each way to build an action: what they may throw,
-- and what they keep of the state, whether they return or throw.
use safecache.Base.{◌≡◌, refl, subst, Bool, true, false, if◌then◌else◌}
use safecache.Result.{Result, ok, throw}
use safecache.Cache.Types.{Error}
use safecache.Cache.Exec.{Exec, pure, raise, lift, gets, update, attempt, modify, ◌>>=◌, finally}

-- Whatever `m` throws satisfies `P`.
pub record Throws {ℓ κ μ} {S : Type ℓ} {A : Type κ} (P : Error → Type μ) (m : Exec S A)
    : Type (ℓ ⊔ κ ⊔ μ) where
  pub from : (s : S) (e : Error) → (m s).0 ≡ throw e → P e

-- Whether `m` returns or throws, it keeps `P` of the state.
pub record Preserves {ℓ κ μ} {S : Type ℓ} {A : Type κ} (I : S → Type μ) (act : Exec S A)
    : Type (ℓ ⊔ κ ⊔ μ) where
  pub through : (st : S) → I st → I (act st).1

module _ {ℓ κ μ} {S : Type ℓ} {A : Type κ} {P : Error → Type μ} where
  pub Throws-pure : (a : A) → Throws P (pure {S = S} a)
  unfolding pure
  Throws-pure a = record { from = λ s e h. cc }

  pub Throws-raise : (e : Error) → P e → Throws P (raise {S = S} {A = A} e)
  unfolding raise
  Throws-raise e p = record { from = λ s e' h. subst P (cc) p }

  pub Throws-lift :
      (r : Result Error A) → ((e : Error) → r ≡ throw e → P e) → Throws P (lift {S = S} r)
  unfolding lift
  Throws-lift r p = record { from = λ s e h. p e h }

  pub Throws-gets : (f : S → A) → Throws P (gets f)
  unfolding gets
  Throws-gets f = record { from = λ s e h. cc }

  pub Throws-update : (f : S → A × S) → Throws P (update f)
  unfolding update
  Throws-update f = record { from = λ s e h. cc }

  pub Throws-attempt : (m : Exec S A) → Throws P (attempt m)
  unfolding attempt
  Throws-attempt m = record { from = λ s e h. cc }

  pub Throws-if :
      (b : Bool) (m n : Exec S A)
      → (b ≡ true → Throws P m)
      → (b ≡ false → Throws P n)
      → Throws P (if b then m else n)
  Throws-if true m n hm hn = hm refl
  Throws-if false m n hm hn = hn refl

module _ {ℓ μ} {S : Type ℓ} {P : Error → Type μ} where
  pub Throws-modify : (f : S → S) → Throws P (modify f)
  unfolding modify
  Throws-modify f = record { from = λ s e h. cc }

module _ {ℓ κ κ' μ} {S : Type ℓ} {A : Type κ} {B : Type κ'} {P : Error → Type μ} where
  Throws-bind-lift :
      (r : Result Error A) (f : A → Exec S B)
      → ((e : Error) → r ≡ throw e → P e)
      → ((a : A) → Throws P (f a))
      → Throws P (lift r >>= f)
  unfolding ◌>>=◌ lift
  Throws-bind-lift (ok a) f pr pf = record { from = λ s e h. (pf a).from s e h }
  Throws-bind-lift (throw x) f pr pf = record { from = λ s e h. pr e (cc) }

  pub Throws-bind :
      (m : Exec S A) (f : A → Exec S B)
      → Throws P m
      → ((a : A) → Throws P (f a))
      → Throws P (m >>= f)
  unfolding ◌>>=◌ lift
  Throws-bind m f tm tf = record {
    from =
        λ s e h. let (r, s') = m s in (Throws-bind-lift r f (λ x q. tm.from s x q) tf).from s' e h;
  }

module _ {ℓ κ μ} {S : Type ℓ} {A : Type κ} {I : S → Type μ} where
  pub Preserves-pure : (a : A) → Preserves I (pure a)
  unfolding pure
  Preserves-pure a = record { through = λ st held. held }

  pub Preserves-raise : (e : Error) → Preserves I (raise {A = A} e)
  unfolding raise
  Preserves-raise e = record { through = λ st held. held }

  pub Preserves-lift : (outcome : Result Error A) → Preserves I (lift outcome)
  unfolding lift
  Preserves-lift outcome = record { through = λ st held. held }

  pub Preserves-gets : (next : S → A) → Preserves I (gets next)
  unfolding gets
  Preserves-gets next = record { through = λ st held. held }

  pub Preserves-update :
      (next : S → A × S) → ((st : S) → I st → I (next st).1) → Preserves I (update next)
  unfolding update
  Preserves-update next k = record { through = λ st held. k st held }

  pub Preserves-attempt : (act : Exec S A) → Preserves I act → Preserves I (attempt act)
  unfolding attempt
  Preserves-attempt act k = record { through = λ st held. k.through st held }

  pub Preserves-if :
      (b : Bool) (act other : Exec S A)
      → (b ≡ true → Preserves I act)
      → (b ≡ false → Preserves I other)
      → Preserves I (if b then act else other)
  Preserves-if true act other hm hn = hm refl
  Preserves-if false act other hm hn = hn refl

module _ {ℓ μ} {S : Type ℓ} {I : S → Type μ} where
  pub Preserves-modify :
      (next : S → S) → ((st : S) → I st → I (next st)) → Preserves I (modify next)
  unfolding modify
  Preserves-modify next k = record { through = λ st held. k st held }

module _ {ℓ κ κ' μ} {S : Type ℓ} {A : Type κ} {B : Type κ'} {I : S → Type μ} where
  pub Preserves-bind-lift :
      (outcome : Result Error A) (next : A → Exec S B)
      → ((a : A) → Preserves I (next a))
      → Preserves I (lift outcome >>= next)
  unfolding ◌>>=◌ lift
  Preserves-bind-lift (ok a) next k = record { through = λ st held. (k a).through st held }
  Preserves-bind-lift (throw e) next k = record { through = λ st held. held }

  pub Preserves-bind :
      (act : Exec S A) (next : A → Exec S B)
      → Preserves I act
      → ((a : A) → Preserves I (next a))
      → Preserves I (act >>= next)
  unfolding ◌>>=◌ lift
  Preserves-bind act next first rest = record {
    through = λ st held.
        let (outcome, after) = act st in
        (Preserves-bind-lift outcome next rest).through after (first.through st held);
  }

module _ {ℓ κ μ} {S : Type ℓ} {A : Type κ} {P : Error → Type μ} where
  pub Throws-finally :
      (m : Exec S A) (k : Exec S (Unit {0})) → Throws P m → Throws P k → Throws P (finally m k)
  unfolding finally ◌>>=◌ attempt lift
  Throws-finally m k tm tk = record {
    from = λ s e h.
        let (r, s') = m s in
        (Throws-bind-lift (k s').0 (λ _. lift r) (λ x q. tk.from s' x q)
            (λ _. Throws-lift r (λ x q. tm.from s x q))).from
          (k s').1 e h;
  }

module _ {ℓ κ μ} {S : Type ℓ} {A : Type κ} {I : S → Type μ} where
  pub Preserves-finally :
      (act : Exec S A) (k : Exec S (Unit {0}))
      → Preserves I act
      → Preserves I k
      → Preserves I (finally act k)
  unfolding finally
  Preserves-finally act k first kk =
      Preserves-bind (attempt act) (λ settled. k >>= λ _. lift settled)
        (Preserves-attempt act first)
        (λ settled. Preserves-bind k (λ _. lift settled) kk (λ _. Preserves-lift settled))

pub ruleset throws_rules = (
  Throws-pure, Throws-raise, Throws-lift, Throws-gets, Throws-update, Throws-attempt, Throws-if,
  Throws-modify, Throws-finally, Throws-bind,
)

pub ruleset preserves_rules = (
  Preserves-pure, Preserves-raise, Preserves-lift, Preserves-gets, Preserves-update,
  Preserves-attempt, Preserves-if, Preserves-modify, Preserves-finally, Preserves-bind,
)

module _ {ℓ κ κ' μ ν} {S : Type ℓ} {A : Type κ} {B : Type κ'} {I : S → Type μ} where
  next_when :
      (outcome : Result Error A) (next : A → Exec S B) (Q : A → Type ν)
      → ((a : A) → outcome ≡ ok a → Q a)
      → ((a : A) → Q a → Preserves I (next a))
      → Preserves I (lift outcome >>= next)
  unfolding ◌>>=◌ lift
  next_when (ok a) next Q knows k = record {
    through = λ st held. (k a (knows a refl)).through st held;
  }
  next_when (throw e) next Q knows k = record { through = λ st held. held }

  -- What the first action returns is known to satisfy `Q` when the second runs.
  pub Preserves-bind_when :
      (act : Exec S A) (next : A → Exec S B) (Q : A → Type ν)
      → Preserves I act
      → ((st : S) (a : A) → (act st).0 ≡ ok a → Q a)
      → ((a : A) → Q a → Preserves I (next a))
      → Preserves I (act >>= next)
  unfolding ◌>>=◌ lift
  Preserves-bind_when act next Q first knows k = record {
    through = λ st held.
        let (outcome, after) = act st in
        (next_when outcome next Q (λ a e. knows st a e) k).through after (first.through st held);
  }
