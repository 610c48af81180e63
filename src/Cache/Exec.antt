-- ===== src/Cache/Exec.antt =====
-- The methods of the cache as actions: they change the state and may throw. What was written
-- before a throw stays written. `attempt` is `try`: the outcome becomes a value.
pub mod Rules
pub mod Returns
pub mod Yields
use safecache.Base.{Bool, true, false}
use safecache.Result.{Result, ok, throw}
use safecache.Cache.Types.{Error}

abbrev pub Exec {ℓ κ} : Type ℓ → Type κ → Type (ℓ ⊔ κ)
Exec S A = S → Result Error A × S

module _ {ℓ κ} {S : Type ℓ} {A : Type κ} where
  unfoldable pub pure : A → Exec S A
  pure a s = (ok a, s)

  unfoldable pub raise : Error → Exec S A
  raise e s = (throw e, s)

  unfoldable pub lift : Result Error A → Exec S A
  lift r s = (r, s)

  unfoldable pub gets : (S → A) → Exec S A
  gets f s = (ok (f s), s)

  -- a read that also changes the state
  unfoldable pub update : (S → A × S) → Exec S A
  update f s = let (a, s') = f s in (ok a, s')

  unfoldable pub attempt : Exec S A → Exec S (Result Error A)
  attempt m s = let (r, s') = m s in (ok r, s')

module _ {ℓ} {S : Type ℓ} where
  unfoldable pub modify : (S → S) → Exec S (Unit {0})
  modify f s = (ok tt, f s)

module _ {ℓ κ μ} {S : Type ℓ} {A : Type κ} {B : Type μ} where
  abbrev continue : Result Error A → (A → Exec S B) → Exec S B
  continue (ok a) f s = f a s
  continue (throw e) f s = (throw e, s)

  infixl 5 ◌>>=◌ ◌>>◌
  unfoldable pub ◌>>=◌ : Exec S A → (A → Exec S B) → Exec S B
  ◌>>=◌ act next start = let (settled, reached) = act start in continue settled next reached

  abbrev pub ◌>>◌ : Exec S A → Exec S B → Exec S B
  act >> other = act >>= λ _. other

-- `try { m } finally { k }`: what `k` throws wins over what `m` throws
unfoldable pub finally {ℓ κ} : {S : Type ℓ} {A : Type κ} → Exec S A → Exec S (Unit {0}) → Exec S A
unfolding ◌>>=◌ attempt lift
finally m k = do settled ← attempt m; k; lift settled
