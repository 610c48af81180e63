-- ===== src/Cache/Unfailing/Outcomes.antt =====
-- What the callers of an invalidation and of `mutate` get.
use safecache.Base.{◌≡◌, refl, Bool, Option, List}
use safecache.Text.{Text}
use safecache.Result.{Result, ok, throw}
use safecache.Cache.Types.{Error, CacheOptions, CacheState, Env, Fetched}
use safecache.Cache.Exec.{Exec, pure, lift, ◌>>=◌}
use safecache.Cache.Exec.Rules.{Throws}
use safecache.Cache.Calls.{await}
use safecache.Cache.Invalidate.{
  invalidate_key_internal, invalidate_tag_internal, invalidate_keys, invalidate_tags, mutate,
}
use safecache.Cache.Unfailing.{
  invalidate_key-Quiet, invalidate_tag-Quiet, invalidate_keys-Quiet, invalidate_tags-Quiet,
}

returned : (r : Result Error (Unit {0})) → ((e : Error) → r ≡ throw e → ⊥) → r ≡ ok tt
returned (ok tt) quiet = refl
returned (throw e) quiet = absurd (quiet e refl)

outcome_lifted {κ κ'} :
    {S : Type 0} {A : Type κ} {B : Type κ'} (r : Result Error A) (f : A → Exec S B)
    (x : Result Error B)
    → ((e : Error) → r ≡ throw e → ⊥)
    → ((a : A) (s : S) → (f a s).0 ≡ x)
    → (s : S) → ((lift r >>= f) s).0 ≡ x
unfolding ◌>>=◌ lift
outcome_lifted (ok a) f x quiet next s = next a s
outcome_lifted (throw e) f x quiet next s = absurd (quiet e refl)

-- The outcome behind an action that does not throw is that of what follows.
outcome_after {κ κ'} :
    {S : Type 0} {A : Type κ} {B : Type κ'} (m : Exec S A) (f : A → Exec S B) (x : Result Error B)
    → Throws (λ _. ⊥) m
    → ((a : A) (s : S) → (f a s).0 ≡ x)
    → (s : S) → ((m >>= f) s).0 ≡ x
unfolding ◌>>=◌ lift
outcome_after m f x quiet next s =
    let (r, s') = m s in outcome_lifted r f x (λ e h. quiet.from s e h) next s'

outcome_of {κ} :
    {S : Type 0} {A : Type κ} (r : Result Error A) (f : A → Exec S A)
    → ((a : A) (s : S) → (f a s).0 ≡ ok a)
    → (s : S) → ((lift r >>= f) s).0 ≡ r
unfolding ◌>>=◌ lift
outcome_of (ok a) f next s = next a s
outcome_of (throw e) f next s = refl

module _ {World Raw V : Type 0} (env : Env World Raw V) (options : CacheOptions) where
  -- An invalidation returns, by key and by tag, published or not, in any state, whatever fails in
  -- the surroundings and whether or not the cache is fail-open.
  pub invalidation_returns :
      (key tag : Text) (tenant : Option Text) (publish : Bool) (s : CacheState World V)
      → ((invalidate_key_internal env options key tenant publish s).0 ≡ ok tt)
        × ((invalidate_tag_internal env options tag tenant publish s).0 ≡ ok tt)
  invalidation_returns key tag tenant publish s = (
    returned _ (λ e h. (invalidate_key-Quiet env options (λ _. ⊥) key tenant publish).from s e h),
    returned _ (λ e h. (invalidate_tag-Quiet env options (λ _. ⊥) tag tenant publish).from s e h),
  )

  settled :
      (keys tags : List Text) (tenant : Option Text) (result : Fetched V) (s : CacheState World V)
      → ((invalidate_keys env options tenant keys >>= λ _.
            (invalidate_tags env options tenant tags >>= λ _. pure result))
          s).0
        ≡ ok result
  unfolding pure
  settled keys tags tenant result s =
      outcome_after _ _ (ok result) (invalidate_keys-Quiet env options (λ _. ⊥) tenant keys)
        (λ _ s'.
          outcome_after _ _ (ok result) (invalidate_tags-Quiet env options (λ _. ⊥) tenant tags)
            (λ _ s''. refl) s')
        s

  -- The outcome of `mutate` is that of its action: it returns what the action returned and throws
  -- what the action threw, whatever happens in its invalidations.
  pub mutate_outcome :
      (action : World → Result Error (Fetched V) × World) (keys tags : List Text)
      (tenant : Option Text) (s : CacheState World V)
      → (mutate env options action keys tags tenant s).0 ≡ (action s.world).0
  unfolding mutate await ◌>>=◌ lift
  mutate_outcome action keys tags tenant s =
      outcome_of (action s.world).0 _ (settled keys tags tenant)
        (env.meanwhile (record s { world = (action s.world).1 }))
