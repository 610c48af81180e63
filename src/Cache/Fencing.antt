-- ===== src/Cache/Fencing.antt =====
-- The fence of `writeEntry` in packages/core/src/cache.ts, with other tasks running at each await:
-- what a write leaves behind when its key is invalidated meanwhile.
pub mod Actions
use safecache.Cache.Fencing.Actions.{
  after_ok, set_then_kept, unless, from_equal_start, true_safe, after_safe,
}
use safecache.Base.{
  ℕ, ◌≡◌, ◌≢◌, refl, sym, ap, subst, ◌⊎◌, inl, inr, Bool, true, false, not, Option, none, some,
  List, [], ◌∷◌, nat_eq, nat_eq_iff, if◌then◌else◌, arith, Bool-cases, Option-cases,
}
use safecache.Text.{Text, codes}
use safecache.Result.{Result, ok, throw}
use safecache.Duration.{DurationInput, parse_duration}
use safecache.CircuitBreaker.{or_default}
use safecache.Cache.Epochs.{current_epoch}
use safecache.Cache.Types.{
  Error, CacheEntry, CacheLayer, CacheOptions, CacheState, Env, Operation, ProviderOp, RuntimeEvent,
}
use safecache.Cache.Exec.{Exec, pure, raise, lift, gets, update, attempt, modify, ◌>>=◌, ◌>>◌}
use safecache.Cache.Exec.Rules.{
  Throws, Preserves, Preserves-bind, Preserves-bind-lift, Throws-update, Preserves-update,
  Preserves-modify, Preserves-pure, preserves_rules,
}
use safecache.Cache.Calls.{
  as_error, set_duration, duration_ms, emit, record_error, fail_open, rethrow_unless_open, await,
  race, clock_now, with_timeout, emit_latency,
}
use safecache.Cache.Guarded.{settle_delete, delete_layer, delete_from, delete_scoped_key}
use safecache.Cache.Store.{
  epoch_of, write_layer, write_layers, compensate, write_serialized, write_entry,
}
use safecache.Cache.FailOpen.Writing.{write_layer-Safe}

-- What the surroundings do to a predicate of the world, which is to say that the layer does not
-- hold the value of one particular write. Deleting the key makes it so; reading the clock and
-- the other tasks, which do not perform that write, keep it so.
pub record Clearing {World Raw V : Type 0} (env : Env World Raw V) (layer : CacheLayer) (key : Text)
    (Clear : World → Type 0) : Type 0 where
  pub deletes : (w : World) → Clear (env.provider_delete layer.provider key w).1
  pub ticks : (w : World) → Clear w → Clear (env.clock w).1
  pub shares : (s : CacheState World V) → Clear s.world → Clear (env.meanwhile s).world

-- A timeout option that is absent or well formed.
abbrev pub IsWellFormed : Option DurationInput → Type 0
IsWellFormed timeout =
    (d : DurationInput)
    → set_duration timeout ≡ some d
    → (ms : ℕ) × (parse_duration d (codes "timeout") ≡ ok ms)

module _ {World Raw V : Type 0} (env : Env World Raw V) (options : CacheOptions)
    (layer : CacheLayer) (k : Text) (Clear : World → Type 0) (clearing : Clearing env layer k Clear)
    (timeout_fine : IsWellFormed options.timeout) where
  IsClear : CacheState World V → Type 0
  IsClear s = Clear s.world

  clock_now-IsClear : Preserves IsClear (clock_now env)
  unfolding clock_now IsClear
  clock_now-IsClear = Preserves-update _ (λ s h. clearing.ticks s.world h)

  emit-IsClear : (event : RuntimeEvent) → Preserves IsClear (emit event)
  unfolding emit IsClear
  emit-IsClear event = Preserves-modify _ (λ s h. h)

  clock_now-Safe : Throws (λ _. ⊥) (clock_now env)
  unfolding clock_now
  clock_now-Safe = Throws-update _

  record_error-IsClear :
      (o : Operation) (e : Error) (key tenant : Option Text)
      → Preserves IsClear (record_error o e key tenant)
  unfolding record_error IsClear
  record_error-IsClear o e key tenant =
      Preserves-bind _ _ (Preserves-modify _ (λ s h. h)) (λ _. emit-IsClear _)

  rethrow-IsClear : (e : Error) → Preserves IsClear (rethrow_unless_open options e (tt {0}))
  unfolding rethrow_unless_open
  rethrow-IsClear e = search preserves_rules

  settle_delete-IsClear :
      (key : Text) (tenant : Option Text) (r : Result Error (Unit {0}))
      → Preserves IsClear (settle_delete env options key tenant r)
  unfolding settle_delete
  settle_delete-IsClear key tenant (ok _) = search preserves_rules
  settle_delete-IsClear key tenant (throw e) = record_error-IsClear _ e _ tenant

  emit_latency-IsClear :
      (op : ProviderOp) (start : ℕ) (key : Text) (tenant : Option Text)
      → Preserves IsClear (emit_latency env layer op start key tenant)
  unfolding emit_latency
  emit_latency-IsClear op start key tenant =
      Preserves-bind _ _ clock_now-IsClear (λ now. emit-IsClear _)

  -- The delete is made, whether or not it or its timeout is reported as an error.
  timed_delete : Option DurationInput → Exec (CacheState World V) (Unit {0})
  timed_delete t = elim t [
    | none ↦ await env (env.provider_delete layer.provider k)
    | some d ↦ do
      ms ← duration_ms d (codes "timeout")
      await env (race env ms (env.provider_delete layer.provider k))
  ]

  timed_delete-IsClear :
      (t : Option DurationInput)
      → ((d : DurationInput) → t ≡ some d → (ms : ℕ) × (parse_duration d (codes "timeout") ≡ ok ms))
      → (s : CacheState World V) → IsClear (timed_delete t s).1
  unfolding timed_delete IsClear await duration_ms race
  timed_delete-IsClear none fine s = clearing.shares _ (clearing.deletes s.world)
  timed_delete-IsClear (some d) fine s =
      let (ms, e) = fine d refl in
      after_ok IsClear _ _ ms (ap as_error e) s (clearing.shares _ (clearing.deletes s.world))

  called-IsClear :
      (s : CacheState World V)
      → IsClear
          (attempt (with_timeout env options.timeout (env.provider_delete layer.provider k)) s).1
  unfolding attempt with_timeout timed_delete
  called-IsClear s = timed_delete-IsClear (set_duration options.timeout) timeout_fine s

  delete_layer-IsClear :
      (key : Text) (tenant : Option Text) (s : CacheState World V)
      → IsClear (delete_layer env options layer k key tenant s).1
  unfolding delete_layer
  delete_layer-IsClear key tenant s =
      after_safe IsClear (clock_now env) _ clock_now-Safe
        (λ start. set_then_kept IsClear _ _ called-IsClear (λ called.
          Preserves-bind _ _ (settle_delete-IsClear key tenant called)
            (λ _. emit_latency-IsClear _ start key tenant)))
        s

  delete_one-IsClear :
      (key : Text) (tenant : Option Text) (s : CacheState World V)
      → IsClear (delete_from env options k key tenant (layer ∷ []) s).1
  unfolding delete_from
  delete_one-IsClear key tenant s =
      set_then_kept IsClear (delete_layer env options layer k key tenant) (λ _. pure tt)
        (delete_layer-IsClear key tenant) (λ _. Preserves-pure tt) s

  delete_scoped_key-IsClear :
      options.layers ≡ layer ∷ []
      → (key tenant : Option Text) (s : CacheState World V)
      → IsClear (delete_scoped_key env options k key tenant s).1
  unfolding delete_scoped_key
  delete_scoped_key-IsClear one key tenant s =
      subst (λ layers. IsClear (delete_from env options k (or_default key k) tenant layers s).1)
        (sym one) (delete_one-IsClear (or_default key k) tenant s)

  -- What a write leaves: the value is gone, or no invalidation was recorded since the fetch.
  IsFenced : ℕ → CacheState World V → Type 0
  IsFenced epoch s = IsClear s ⊎ (current_epoch s.epochs k ≡ epoch)

  compensate-IsFenced :
      options.layers ≡ layer ∷ []
      → (tenant : Option Text) (epoch : ℕ) (key : Option Text) (s : CacheState World V)
      → IsFenced epoch (compensate env options true k tenant epoch key s).1
  unfolding compensate epoch_of gets IsFenced ◌>>=◌
  compensate-IsFenced one tenant epoch key s =
      unless (IsFenced epoch) (nat_eq (current_epoch s.epochs k) epoch) _ s
        (inl (delete_scoped_key-IsClear one key tenant s))
        (λ same. inr ((nat_eq_iff (current_epoch s.epochs k) epoch).0 same))

  one_turn :
      (entry : CacheEntry V) (raw : Raw) (ttl : ℕ) (tenant : Option Text) (epoch : ℕ)
      (key : Option Text) (s : CacheState World V)
      → nat_eq (current_epoch s.epochs k) epoch ≡ true
      → write_layers env options (layer ∷ []) k entry raw ttl tenant epoch key s
        ≡ (write_layer env options layer k entry raw ttl tenant key >>= λ _. pure true) s
  unfolding write_layers epoch_of gets ◌>>=◌
  one_turn entry raw ttl tenant epoch key s same = rw same refl

  write_one-IsFenced :
      options.layers ≡ layer ∷ []
      → fail_open options ≡ true
      → (entry : CacheEntry V) (raw : Raw) (ttl : ℕ) (tenant : Option Text) (epoch : ℕ)
        (key : Option Text)
      → (s : CacheState World V) → nat_eq (current_epoch s.epochs k) epoch ≡ true
      → IsFenced epoch (write_serialized env options (ok raw) k entry ttl tenant epoch key s).1
  unfolding write_serialized
  write_one-IsFenced one opened entry raw ttl tenant epoch key s same =
      subst
        (λ layers.
          IsFenced epoch
            ((write_layers env options layers k entry raw ttl tenant epoch key >>= λ finished.
                compensate env options finished k tenant epoch key)
              s).1)
        (sym one)
        (from_equal_start (IsFenced epoch) _ _ _ s (one_turn entry raw ttl tenant epoch key s same)
          (true_safe (IsFenced epoch) _ _
            (write_layer-Safe env options (λ _. ⊥) opened layer k entry raw ttl tenant key)
            (compensate-IsFenced one tenant epoch key) s))

  serialized-IsFenced :
      options.layers ≡ layer ∷ []
      → fail_open options ≡ true
      → (r : Result Error Raw)
      → (entry : CacheEntry V) (ttl : ℕ) (tenant : Option Text) (epoch : ℕ) (key : Option Text)
      → (s : CacheState World V) → IsClear s
      → nat_eq (current_epoch s.epochs k) epoch ≡ true
      → IsFenced epoch (write_serialized env options r k entry ttl tenant epoch key s).1
  unfolding write_serialized IsFenced
  serialized-IsFenced one opened (ok raw) entry ttl tenant epoch key s clear same =
      write_one-IsFenced one opened entry raw ttl tenant epoch key s same
  serialized-IsFenced one opened (throw e) entry ttl tenant epoch key s clear same = inl (
      (Preserves-bind _ _ (record_error-IsClear _ e _ tenant) (λ _. rethrow-IsClear e)).through s
        clear)

  unchanged :
      (b : Bool) (m : Exec (CacheState World V) (Unit {0})) (s : CacheState World V) (epoch : ℕ)
      → IsClear s
      → (b ≡ true → IsFenced epoch (m s).1)
      → IsFenced epoch ((if not b then pure tt else m) s).1
  unfolding IsFenced pure
  unchanged true m s epoch clear next = next refl
  unchanged false m s epoch clear next = inl clear

  -- With one layer and a fail-open cache, for any behaviour of the other tasks at each await and
  -- any error or timeout of the provider: `write_entry` of a value fetched at epoch `epoch` ends
  -- with the value gone from the layer, or with the key's epoch still the one at which the fetch
  -- began. The value was not there before, deleting the key removes it, the clock and the other
  -- tasks do not put it there, and the timeout option is well formed.
  pub overtaken_write_is_removed :
      options.layers ≡ layer ∷ []
      → fail_open options ≡ true
      → (entry : CacheEntry V) (ttl : ℕ) (tenant : Option Text) (epoch : ℕ) (key : Option Text)
      → (s : CacheState World V) → Clear s.world
      → let s' : CacheState World V = (write_entry env options k entry ttl tenant epoch key s).1 in
        Clear s'.world ⊎ (current_epoch s'.epochs k ≡ epoch)
  unfolding write_entry epoch_of gets ◌>>=◌ IsFenced IsClear
  overtaken_write_is_removed one opened entry ttl tenant epoch key s clear =
      unchanged (nat_eq (current_epoch s.epochs k) epoch) _ s epoch clear
        (serialized-IsFenced one opened (env.serialize entry) entry ttl tenant epoch key s clear)
