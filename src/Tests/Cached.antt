-- ===== src/Tests/Cached.antt =====
-- The theorems on the cache applied to concrete inputs.
use safecache.Base.{
  ℕ, ◌≡◌, ◌≢◌, refl, subst, true, false, ◌⊎◌, none, [], ◌∷◌, arith, ◌≤◌, ◌+◌, leb, if◌then◌else◌,
  length,
}
use safecache.Text.{codes, text_eq, text_has_eq, text_eq_iff}
use safecache.JsMap
use safecache.JsMap.{get-delete}
use safecache.JsSet
use safecache.Result.{ok, throw}
use safecache.Duration.{
  max_safe_integer, too_large, wrong_units, parse_text, parse_duration, exec_pattern, span_digits,
  is_digit, is_unit, factor, number_from, number, nat,
}
use safecache.Duration.Grammar.{Denotes, parse_text_cases}
use safecache.Tests.Sample.{
  Store, start, user, env, failing_env, layer, options, question, entry, event_signed,
}
use safecache.Cache.Epochs.{no_epochs, bump_all, current_epoch}
use safecache.Cache.Epochs.Bounds.{IsValid, bump_all-IsValid}
use safecache.Cache.Epochs.Fence.{fence}
use safecache.Cache.Epochs.Lapse.{fence_lapses}
use safecache.CircuitBreaker.{is_open}
use safecache.Cache.Types.{value, rejected, unequal_buffers, CacheState}
use safecache.Cache.Calls.{
  set_duration, duration_ms, emit, record_error, rethrow_unless_open, await, clock_now,
  breaker_open, breaker_failure, breaker_success, race, with_timeout, emit_latency,
}
use safecache.Cache.Guarded.{settle_read, safe_provider_read}
use safecache.Cache.Store.{epoch_of, classify_found, or_next, read_from, read_layers, write_entry}
use safecache.Cache.Fetch.{resolve_ttl, fetch_and_store, fetch_and_store_with_distributed_lock}
use safecache.Cache.Query.{single_flight, load_missing, respond, query}
use safecache.Cache.Exec.{pure, raise, lift, gets, update, attempt, modify, ◌>>=◌, finally}
use safecache.Keys.{scope_key}
use safecache.Cache.Distributed.{
  remember, max_seen_events, verify_incoming_event, signed, set_secret, sign_event,
}
use safecache.Cache.Distributed.Seen.{AllNamed, remember_bounded, empty_id_unbounds}
use safecache.Cache.Invalidate.{on_event, invalidate_key_internal, invalidate_tag_internal, mutate}
use safecache.Cache.Unfailing.Outcomes.{invalidation_returns, mutate_outcome}
use safecache.Cache.Trust.{
  IsUntouched, signed_verifies, forged_event_ignored, wide_signature_throws,
}
use safecache.Cache.Fencing.{Clearing, IsWellFormed, overtaken_write_is_removed}
use safecache.Cache.FailOpen.{Origin}
use safecache.Cache.FailOpen.Querying.{query_fails_open}

parse_text_cases_example :
    ((n : ℕ) × Denotes (codes "5m") n
      × (parse_text (codes "ttl") (codes "5m")
          ≡ (if leb n max_safe_integer then ok n else throw (too_large (codes "ttl")))))
    ⊎ (((n : ℕ) → ¬ Denotes (codes "5m") n)
        × (parse_text (codes "ttl") (codes "5m") ≡ throw (wrong_units (codes "ttl"))))
parse_text_cases_example = parse_text_cases (codes "ttl") (codes "5m")

no_epochs-IsValid : (bound : ℕ) → IsValid bound no_epochs
no_epochs-IsValid bound = record { fits = omega arith; issued = tt; distinct = tt }

bump_all-IsValid_example : IsValid 2 (bump_all 2 (codes "a" ∷ codes "b" ∷ codes "c" ∷ []) no_epochs)
bump_all-IsValid_example =
    bump_all-IsValid 2 (codes "a" ∷ codes "b" ∷ codes "c" ∷ []) no_epochs (no_epochs-IsValid 2)

fence_example :
    current_epoch (bump_all 5000 (codes "a" ∷ codes "b" ∷ codes "a" ∷ []) no_epochs) (codes "b")
    ≢ current_epoch no_epochs (codes "b")
fence_example =
    fence 5000 (codes "a" ∷ codes "b" ∷ codes "a" ∷ []) (codes "b") no_epochs
      (no_epochs-IsValid 5000) (unfold JsSet.has text_eq in refl) (omega arith)

fence_lapses_example :
    current_epoch (bump_all 2 (codes "a" ∷ codes "b" ∷ codes "c" ∷ []) no_epochs) (codes "a")
    ≡ current_epoch no_epochs (codes "a")
fence_lapses_example =
    fence_lapses 2 (codes "a") (codes "b" ∷ codes "c" ∷ []) no_epochs (no_epochs-IsValid 2)
      (unfold JsSet.has text_eq in (refl, (refl, (refl, tt))))
      (unfold JsMap.get in (refl, (refl, (refl, tt)))) (omega arith)

remember_bounded_example :
    AllNamed (remember (codes "e1" ∷ []) (codes "e2"))
    × (length (remember (codes "e1" ∷ []) (codes "e2")) ≤ max_seen_events)
remember_bounded_example =
    remember_bounded (codes "e1" ∷ []) (codes "e2") ((λ e. cc), tt) (λ e. cc) (omega arith)

empty_id_unbounds_example :
    length (remember ([] ∷ codes "e1" ∷ []) (codes "e2")) ≡ length ([] ∷ codes "e1" ∷ []) + 1
empty_id_unbounds_example =
    empty_id_unbounds (codes "e1" ∷ []) (codes "e2") (unfold JsSet.has text_eq in refl)

signed_verifies_example :
    verify_incoming_event env options (signed env options (event_signed (codes "zz"))) start
    ≡ (ok true, start)
signed_verifies_example = signed_verifies env options (event_signed (codes "zz")) start

forged_event_ignored_example :
    IsUntouched start (on_event env options (event_signed (codes "zz")) start).1
forged_event_ignored_example =
    forged_event_ignored env options (codes "secret") (event_signed (codes "zz")) start
      (unfold set_secret in refl)
      (λ p e. let same : p ≡ codes "zz" = cc in rw same (unfold text_eq sign_event in refl))

node_b_ne_node_a : codes "node-b" ≢ codes "node-a"
unfolding text_eq
node_b_ne_node_a e =
    let h : false ≡ true = (text_eq_iff (codes "node-b") (codes "node-a")).1 e in cc

wide_signature_throws_example :
    on_event env options (event_signed (97 ∷ 233 ∷ [])) start ≡ (throw unequal_buffers, start)
wide_signature_throws_example =
    wide_signature_throws env options (codes "secret") (97 ∷ 233 ∷ [])
      (event_signed (97 ∷ 233 ∷ [])) start (unfold set_secret in refl) refl node_b_ne_node_a refl
      (unfold sign_event in refl) (unfold sign_event in omega arith)

clearing : Clearing env layer user (λ w. JsMap.get w user ≡ none)
unfolding text_eq
clearing = record {
  deletes = λ w. get-delete w user user;
  ticks = λ w h. h;
  shares = λ s h. get-delete s.world user user;
}

timeout_fine : IsWellFormed options.timeout
unfolding set_duration parse_duration
timeout_fine d e =
    let same : number (nat 50) ≡ d = cc in
    subst (λ d. (ms : ℕ) × (parse_duration d (codes "timeout") ≡ ok ms)) same (50, refl)

overtaken_write_is_removed_example :
    let s' : CacheState Store ℕ = (write_entry env options user entry 1000 none 0 none start).1 in
    (JsMap.get s'.world user ≡ none) ⊎ (current_epoch s'.epochs user ≡ 0)
overtaken_write_is_removed_example =
    overtaken_write_is_removed env options layer user (λ w. JsMap.get w user ≡ none) clearing
      timeout_fine refl refl entry 1000 none 0 none start (unfold JsMap.get in refl)

failing_query_throws :
    (query failing_env options question start).0 ≡ throw (rejected (codes "database"))
unfolding set_duration duration_ms emit record_error rethrow_unless_open await clock_now
    breaker_open breaker_failure breaker_success race with_timeout emit_latency settle_read
    safe_provider_read epoch_of classify_found or_next read_from read_layers resolve_ttl
    fetch_and_store fetch_and_store_with_distributed_lock single_flight load_missing respond query
    pure raise lift gets update attempt modify ◌>>=◌ finally parse_duration scope_key current_epoch
    parse_text exec_pattern span_digits is_digit is_unit text_eq factor number_from is_open
    JsSet.has
failing_query_throws = refl

query_fails_open_example : Origin failing_env question (rejected (codes "database"))
query_fails_open_example =
    query_fails_open failing_env question options refl start (rejected (codes "database"))
      failing_query_throws

invalidation_returns_example :
    ((invalidate_key_internal failing_env options (codes "user:1") none true start).0 ≡ ok tt)
    × ((invalidate_tag_internal failing_env options (codes "users") none true start).0 ≡ ok tt)
invalidation_returns_example =
    invalidation_returns failing_env options (codes "user:1") (codes "users") none true start

mutate_outcome_example :
    (mutate failing_env options
      (λ w. (ok (value 7), w))
      (codes "user:1" ∷ [])
      (codes "users" ∷ [])
      none
      start).0
    ≡ ok (value 7)
mutate_outcome_example =
    mutate_outcome failing_env options (λ w. (ok (value 7), w)) (codes "user:1" ∷ [])
      (codes "users" ∷ []) none start
