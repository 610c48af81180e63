-- ===== src/CircuitBreaker/Recovery.antt =====
-- The breaker of packages/core/src/circuit-breaker.ts when it was tripped.
use safecache.Base.{
  ◌⊎◌, inl, inr, ℕ, ◌+◌, ◌≤◌, ◌<◌, ◌≡◌, true, false, List, [], ◌∷◌, arith, All, length,
}
use safecache.CircuitBreaker.{CircuitBreaker, state, is_open, record_failure}
use safecache.CircuitBreaker.Runs.{
  reading, observe, observe_all, readings, IsClosed, fail_all, fail_all-counts,
}

-- The breaker lets calls through.
abbrev Admits : CircuitBreaker → Type 0
Admits b = (b.enabled ≡ true) × ((b.probing ≡ true) ⊎ (b.opened_until ≡ 0))

reading-Admits : (t : ℕ) (b : CircuitBreaker) → Admits b → Admits (observe (reading t) b)
unfolding observe state
reading-Admits t b (on, inl probing) = ground arith
reading-Admits t b (on, inr shut) = ground arith

readings-Admits :
    (ts : List ℕ) (b : CircuitBreaker) → Admits b → Admits (observe_all (readings ts) b)
unfolding observe_all
readings-Admits [] b a = a
readings-Admits (t ∷ ts) b a = readings-Admits ts (observe (reading t) b) (reading-Admits t b a)

elapsed-Admits :
    (now : ℕ) (b : CircuitBreaker)
    → b.enabled ≡ true
    → b.opened_until ≤ now
    → Admits (observe (reading now) b)
unfolding observe state
elapsed-Admits now b on elapsed = ground arith

Admits-is_open : (t : ℕ) (b : CircuitBreaker) → Admits b → (is_open t b).0 ≡ false
unfolding is_open state
Admits-is_open t b (on, inl probing) = ground arith
Admits-is_open t b (on, inr shut) = ground arith

-- what the failure that reaches the threshold leaves
tripped_lem :
    (b : CircuitBreaker) (first : ℕ) (ts : List ℕ) (last : ℕ)
    → IsClosed b
    → b.failures ≡ 0
    → length ts + 2 ≡ b.failure_threshold
    → All (λ t. t < first + b.reset_after_ms) ts
    → last < first + b.reset_after_ms
    → let tripped : CircuitBreaker = record_failure last (fail_all (first ∷ ts) b) in
      (tripped.enabled ≡ true) × (tripped.opened_until ≡ last + b.reset_after_ms)
unfolding fail_all
tripped_lem b first ts last c idle enough within in_time =
    let started : record_failure first b ≡ record b { failures = 1; first_failure_at = first } =
      (unfold record_failure in ground arith) in
    rw
      (
        started,
        fail_all-counts ts (record b { failures = 1; first_failure_at = first })
            (record { active = c.active; settled = c.settled; shut = c.shut }) (omega arith)
            (omega arith) within,
      )
      (unfold record_failure in ground arith)

-- An idle, closed breaker with a threshold of two at least that is tripped by a failure which
-- reaches the threshold within the window lets every caller through once that failure is
-- `reset_after_ms` old, however many ask and whenever, until an outcome is recorded: it does not
-- admit a single probe only.
pub tripped_admits_all :
    (b : CircuitBreaker) (first : ℕ) (ts : List ℕ) (last now : ℕ) (others : List ℕ) (later : ℕ)
    → IsClosed b
    → b.failures ≡ 0
    → length ts + 2 ≡ b.failure_threshold
    → All (λ t. t < first + b.reset_after_ms) ts
    → last < first + b.reset_after_ms
    → last + b.reset_after_ms ≤ now
    → let tripped : CircuitBreaker = record_failure last (fail_all (first ∷ ts) b) in
      (is_open later (observe_all (readings (now ∷ others)) tripped)).0 ≡ false
unfolding observe_all
tripped_admits_all b first ts last now others later c idle enough within in_time elapsed =
    let (on, until) = tripped_lem b first ts last c idle enough within in_time in
    Admits-is_open later _ (readings-Admits others _ (elapsed-Admits now _ on (omega arith)))
