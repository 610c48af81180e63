-- ===== src/Tests.antt =====
-- The theorems applied to concrete inputs.
pub mod Sample
pub mod Cached
pub mod Stored
pub mod Events
pub mod Outboxes
pub mod Server
pub mod Streams
pub mod Locking
pub mod Delivering
pub mod Memcaching
pub mod Mutating
pub mod Closing
pub mod Polling
use safecache.Base.{
  ℕ, ◌≡◌, ◌≢◌, refl, Bool, true, false, not, ◌⊎◌, inl, inr, Option, none, some, List, [], ◌∷◌,
  arith, ◌≤◌, ◌<◌, length, All,
}
use safecache.Text.{Text, codes, text_eq}
use safecache.Tests.Sample.{
  Store, breaker, start, down, user, env, failing_env, layer, options, question, entry,
  event_signed,
}
use safecache.Keys.{scope_key, scope_tag, encode_component}
use safecache.Keys.Decode.{decode, decode-encode_component}
use safecache.Keys.Scope.{effective, scope_key-injective, scope_key-ne-scope_tag}
use safecache.CircuitBreaker.{
  CircuitState, closed, open_now, half_open, state, is_open, record_success, record_failure,
}
use safecache.CircuitBreaker.Invariant.{IsValid}
use safecache.CircuitBreaker.Recovery.{tripped_admits_all}
use safecache.CircuitBreaker.Runs.{
  Outcome, success, failure, reading, observe_all, observe_all-IsValid, IsClosed, fail_all,
  threshold_opens, failures_in, few_failures_stay_closed, readings,
}

scope_key-injective_example :
    (codes "app" ≡ codes "app")
    × (codes "user:1" ≡ codes "user:1")
    × (effective none ≡ effective (some []))
scope_key-injective_example =
    scope_key-injective (codes "app") (codes "app") (codes "user:1") (codes "user:1") none (some [])
      (unfold scope_key in refl)

scope_key-ne-scope_tag_example :
    scope_key (codes "app") (codes "tag:x") none ≢ scope_tag (codes "app") (codes "x") none
scope_key-ne-scope_tag_example =
    scope_key-ne-scope_tag (codes "app") (codes "app") (codes "tag:x") (codes "x") none none

breaker-IsValid : IsValid breaker
breaker-IsValid = record {
  disabled = λ h. cc;
  streak = inl refl;
  window = λ h. refl;
  probe = λ h. refl;
}

breaker-IsClosed : IsClosed breaker
breaker-IsClosed = record { active = refl; settled = refl; shut = refl }

observe_all-IsValid_example :
    IsValid (observe_all (failure 5 ∷ failure 6 ∷ failure 7 ∷ reading 200 ∷ success ∷ []) breaker)
observe_all-IsValid_example =
    observe_all-IsValid (failure 5 ∷ failure 6 ∷ failure 7 ∷ reading 200 ∷ success ∷ []) breaker
      breaker-IsValid

threshold_opens_example :
    (state 110 (record_failure 30 (fail_all (10 ∷ 20 ∷ []) breaker))).0 ≡ open_now
threshold_opens_example =
    threshold_opens breaker 10 (20 ∷ []) 30 110 breaker-IsClosed refl refl (omega arith, tt)
      (omega arith) (omega arith)

few_failures_stay_closed_example :
    (state 50 (observe_all (failure 5 ∷ success ∷ failure 6 ∷ []) breaker)).0 ≡ closed
few_failures_stay_closed_example =
    few_failures_stay_closed (failure 5 ∷ success ∷ failure 6 ∷ []) breaker 50 breaker-IsClosed
      (unfold failures_in in omega arith)

tripped_admits_all_example :
    (is_open 131 (
      observe_all
        (readings (130 ∷ 131 ∷ []))
        (record_failure 30 (fail_all (10 ∷ 20 ∷ []) breaker)))).0
    ≡ false
tripped_admits_all_example =
    tripped_admits_all breaker 10 (20 ∷ []) 30 130 (131 ∷ []) 131 breaker-IsClosed refl refl
      (omega arith, tt) (omega arith) (omega arith)
