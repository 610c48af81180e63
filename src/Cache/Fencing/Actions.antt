-- ===== src/Cache/Fencing/Actions.antt =====
-- Rules for actions in sequence that the fence of packages/core/src/cache.ts is proved with.
use safecache.Base.{◌≡◌, refl, sym, subst, Bool, true, false, not, if◌then◌else◌}
use safecache.Result.{Result, ok, throw}
use safecache.Cache.Types.{Error}
use safecache.Cache.Exec.{Exec, pure, lift, ◌>>=◌}
use safecache.Cache.Exec.Rules.{Throws, Preserves, Preserves-bind-lift}

after_lift {κ κ' μ} :
    {S : Type 0} {A : Type κ} {B : Type κ'} (Q : S → Type μ) (r : Result Error A) (f : A → Exec S B)
    → ((e : Error) → r ≡ throw e → ⊥)
    → ((a : A) (s : S) → Q (f a s).1)
    → (s : S) → Q ((lift r >>= f) s).1
unfolding ◌>>=◌ lift
after_lift Q (ok a) f safe next s = next a s
after_lift Q (throw e) f safe next s = absurd (safe e refl)

pub after_ok {κ κ' μ} :
    {S : Type 0} {A : Type κ} {B : Type κ'} (Q : S → Type μ) (r : Result Error A) (f : A → Exec S B)
    (a : A)
    → r ≡ ok a
    → (s : S) → Q (f a s).1
    → Q ((lift r >>= f) s).1
unfolding ◌>>=◌ lift
after_ok Q (ok a') f a e s q = let same : a ≡ a' = cc in subst (λ x. Q (f x s).1) same q
after_ok Q (throw e') f a e s q = absurd (cc)

pub set_then_kept {κ κ' μ} :
    {S : Type 0} {A : Type κ} {B : Type κ'} (Q : S → Type μ) (m : Exec S A) (f : A → Exec S B)
    → ((s : S) → Q (m s).1)
    → ((a : A) → Preserves Q (f a))
    → (s : S) → Q ((m >>= f) s).1
unfolding ◌>>=◌ lift
set_then_kept Q m f sets keeps s =
    let (r, s') = m s in (Preserves-bind-lift r f keeps).through s' (sets s)

pub unless {μ} :
    {S : Type 0} (Q : S → Type μ) (b : Bool) (m : Exec S (Unit {0})) (s : S)
    → Q (m s).1
    → (b ≡ true → Q s)
    → Q ((if not b then m else pure tt) s).1
unfolding pure
unless Q true m s q kept = kept refl
unless Q false m s q kept = q

pub from_equal_start {κ κ' μ} :
    {S : Type 0} {A : Type κ} {B : Type κ'} (Q : S → Type μ) (m m' : Exec S A) (f : A → Exec S B)
    (s : S)
    → m s ≡ m' s
    → Q ((m' >>= f) s).1
    → Q ((m >>= f) s).1
unfolding ◌>>=◌
from_equal_start Q m m' f s same q = subst (λ p. Q (((λ _. p) >>= f) s).1) (sym same) q

true_lift {κ κ' μ} :
    {S : Type 0} {A : Type κ} {B : Type κ'} (Q : S → Type μ) (r : Result Error A)
    (f : Bool → Exec S B)
    → ((e : Error) → r ≡ throw e → ⊥)
    → ((s : S) → Q (f true s).1)
    → (s : S) → Q (((lift r >>= λ _. pure true) >>= f) s).1
unfolding ◌>>=◌ lift pure
true_lift Q (ok a) f safe next s = next s
true_lift Q (throw e) f safe next s = absurd (safe e refl)

-- The last action runs with `true` when the first does not throw.
pub true_safe {κ κ' μ} :
    {S : Type 0} {A : Type κ} {B : Type κ'} (Q : S → Type μ) (m : Exec S A) (f : Bool → Exec S B)
    → Throws (λ _. ⊥) m
    → ((s : S) → Q (f true s).1)
    → (s : S) → Q (((m >>= λ _. pure true) >>= f) s).1
unfolding ◌>>=◌ lift
true_safe Q m f safe next s = let (r, s') = m s in true_lift Q r f (λ e h. safe.from s e h) next s'

-- The second action runs when the first does not throw.
pub after_safe {κ κ' μ} :
    {S : Type 0} {A : Type κ} {B : Type κ'} (Q : S → Type μ) (m : Exec S A) (f : A → Exec S B)
    → Throws (λ _. ⊥) m
    → ((a : A) (s : S) → Q (f a s).1)
    → (s : S) → Q ((m >>= f) s).1
unfolding ◌>>=◌ lift
after_safe Q m f safe next s =
    let (r, s') = m s in after_lift Q r f (λ e h. safe.from s e h) next s'
