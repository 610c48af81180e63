-- ===== src/Cache/Trust.antt =====
-- Which events of other processes the cache acts on (`verifyIncomingEvent` and the subscription
-- handler of packages/core/src/cache.ts).
use safecache.Base.{
  ◌≡◌, ◌≢◌, refl, Bool, true, false, not, ◌||◌, Option, none, some, nat_eq, if◌then◌else◌, length,
  arith, inl, inr, Bool-cases,
}
use safecache.Text.{Text, text_eq, text_eq_iff}
use safecache.Result.{Result, ok, throw}
use safecache.Cache.Types.{Error, unequal_buffers, CacheEvent, CacheOptions, CacheState, Env}
use safecache.Cache.Exec.{Exec, pure, raise, lift, modify, ◌>>=◌}
use safecache.Cache.Calls.{record_error, emit}
use safecache.Cache.Distributed.{
  set_secret, declared_fields, canonicalize_event, sign_event, timing_safe_equal, settle_matches,
  malformed, check_signature, verify_with, sign_with, verify_incoming_event, signed,
}
use safecache.Cache.Invalidate.{on_event, deliver_once}

-- What an event must not touch when it is dropped.
pub record IsUntouched {World V : Type 0} (s s' : CacheState World V) : Type 0 where
  pub world : s'.world ≡ s.world
  pub epochs : s'.epochs ≡ s.epochs
  pub seen : s'.seen_event_ids ≡ s.seen_event_ids

module _ {World Raw V : Type 0} (env : Env World Raw V) (options : CacheOptions) where
  check_own :
      (expected : Text) (s : CacheState World V)
      → check_signature env options expected (some expected) s ≡ (ok true, s)
  unfolding check_signature timing_safe_equal settle_matches pure ◌>>=◌
  check_own expected s = ground (arith, text_eq_iff (env.bytes expected) (env.bytes expected))

  verify-sign :
      (secret : Option Text) (event : CacheEvent) (s : CacheState World V)
      → verify_with env options secret (sign_with env options secret event) s ≡ (ok true, s)
  unfolding verify_with sign_with sign_event canonicalize_event declared_fields pure
  verify-sign none event s = refl
  verify-sign (some secret) event s = check_own _ s

  -- An event that this cache has signed passes its verification, whatever signature it had
  -- before, and leaves no trace. Without a secret every event passes.
  pub signed_verifies :
      (event : CacheEvent) (s : CacheState World V)
      → verify_incoming_event env options (signed env options event) s ≡ (ok true, s)
  unfolding verify_incoming_event signed
  signed_verifies event s = verify-sign (set_secret options.signing_secret) event s

  -- the outcome of a check that must not succeed
  abbrev Refuses : Result Error Bool → Type 0
  Refuses (ok true) = ⊥
  Refuses (ok false) = Unit
  Refuses (throw e) = e ≡ unequal_buffers

  check_forged :
      (expected : Text) (given : Option Text) (s : CacheState World V)
      → ((p : Text) → given ≡ some p → text_eq (env.bytes p) (env.bytes expected) ≡ false)
      → Refuses (check_signature env options expected given s).0
        × IsUntouched s (check_signature env options expected given s).1
  unfolding check_signature malformed record_error emit modify timing_safe_equal settle_matches
      raise pure ◌>>=◌
  check_forged expected none s h = (tt, record { world = refl; epochs = refl; seen = refl })
  check_forged expected (some p) s h = elim (Bool-cases (nat_eq (length p) (length expected))) [
    | inr uneven ↦ rw uneven (tt, record { world = refl; epochs = refl; seen = refl })
    | inl even ↦ elim (Bool-cases (nat_eq (length (env.bytes p)) (length (env.bytes expected)))) [
      | inr wide ↦ rw (even, wide) (refl, record { world = refl; epochs = refl; seen = refl })
      | inl level ↦
          rw (even, level, h p refl) (tt, record { world = refl; epochs = refl; seen = refl })
    ]
  ]

  after_check :
      (r : Result Error Bool) (s s' : CacheState World V)
      (deliver : Exec (CacheState World V) (Unit {0}))
      → Refuses r
      → IsUntouched s s'
      → IsUntouched s ((lift r >>= λ verified. if verified then deliver else pure tt) s').1
  unfolding lift pure ◌>>=◌
  after_check (ok true) s s' deliver r u = absurd r
  after_check (ok false) s s' deliver r u = u
  after_check (throw e) s s' deliver r u = u

  drop_refused :
      (event : CacheEvent) (s : CacheState World V)
      → Refuses (verify_incoming_event env options event s).0
      → IsUntouched s (verify_incoming_event env options event s).1
      → IsUntouched s (on_event env options event s).1
  unfolding on_event pure ◌>>=◌ lift
  drop_refused event s r u =
      elim (Bool-cases
        (not (text_eq event.namespace options.namespace) || text_eq event.source options.source)) [
          | inl foreign ↦ rw foreign (record { world = refl; epochs = refl; seen = refl })
          | inr ours ↦ rw ours (
              after_check (verify_incoming_event env options event s).0 s
                (verify_incoming_event env options event s).1 (deliver_once env options event) r u)
        ]

  -- With a signing secret set, an event whose signature is missing, or is not that of its content
  -- under the secret, invalidates nothing: the world, the epochs and the remembered ids stay as
  -- they were. It is dropped, or the handler throws for a signature of the expected length whose
  -- bytes have another length.
  pub forged_event_ignored :
      (secret : Text) (event : CacheEvent) (s : CacheState World V)
      → set_secret options.signing_secret ≡ some secret
      → ((p : Text)
          → event.signature ≡ some p
          → text_eq (env.bytes p) (env.bytes (sign_event env options event secret)) ≡ false)
      → IsUntouched s (on_event env options event s).1
  unfolding verify_incoming_event verify_with
  forged_event_ignored secret event s given wrong =
      let (r, u) = check_forged (sign_event env options event secret) event.signature s wrong in
      drop_refused event s (rw (given, verify_with) r) (rw (given, verify_with) u)

  -- A signature of the expected length whose bytes have another length makes the handler throw,
  -- where any other wrong signature is dropped and recorded as an error.
  pub wide_signature_throws :
      (secret p : Text) (event : CacheEvent) (s : CacheState World V)
      → set_secret options.signing_secret ≡ some secret
      → event.namespace ≡ options.namespace
      → event.source ≢ options.source
      → event.signature ≡ some p
      → length p ≡ length (sign_event env options event secret)
      → length (env.bytes p) ≢ length (env.bytes (sign_event env options event secret))
      → on_event env options event s ≡ (throw unequal_buffers, s)
  unfolding verify_incoming_event verify_with on_event check_signature timing_safe_equal raise pure
      ◌>>=◌
  wide_signature_throws secret p event s given here theirs sent even wide = ground (
    arith,
    text_eq_iff event.namespace options.namespace,
    text_eq_iff event.source options.source,
  )
