-- ===== src/CircuitBreaker/Runs.antt =====
-- What sequences of outcomes and readings do to the breaker.
use safecache.Base.{ℕ, suc, ◌+◌, ◌≤◌, ◌<◌, ◌≡◌, ◌≢◌, true, false, List, [], ◌∷◌, arith, All, length}
use safecache.CircuitBreaker.{
  CircuitBreaker, closed, open_now, half_open, state, record_success, record_failure,
}
use safecache.CircuitBreaker.Invariant.{
  IsValid, state-IsValid, record_success-IsValid, record_failure-IsValid,
}

-- What the cache does with its breaker: a provider call ends, or the state is read.
pub data Outcome : Type 0 where
  success : Outcome
  failure reading : ℕ → Outcome

unfoldable pub observe : Outcome → CircuitBreaker → CircuitBreaker
observe success b = record_success b
observe (failure now) b = record_failure now b
observe (reading now) b = (state now b).1

unfoldable pub observe_all : List Outcome → CircuitBreaker → CircuitBreaker
observe_all [] b = b
observe_all (o ∷ os) b = observe_all os (observe o b)

observe-IsValid : (o : Outcome) (b : CircuitBreaker) → IsValid b → IsValid (observe o b)
unfolding observe
observe-IsValid success b v = record_success-IsValid b v
observe-IsValid (failure now) b v = record_failure-IsValid now b v
observe-IsValid (reading now) b v = state-IsValid now b v

-- Whatever the providers answer and whenever the state is read, the breaker stays valid.
pub observe_all-IsValid :
    (os : List Outcome) (b : CircuitBreaker) → IsValid b → IsValid (observe_all os b)
unfolding observe_all
observe_all-IsValid [] b v = v
observe_all-IsValid (o ∷ os) b v = observe_all-IsValid os (observe o b) (observe-IsValid o b v)

unfoldable pub fail_all : List ℕ → CircuitBreaker → CircuitBreaker
fail_all [] b = b
fail_all (t ∷ ts) b = fail_all ts (record_failure t b)

-- A breaker that lets calls through and is not probing.
pub record IsClosed (b : CircuitBreaker) : Type 0 where
  pub active : b.enabled ≡ true
  pub settled : b.probing ≡ false
  pub shut : b.opened_until ≡ 0

pub fail_all-counts :
    (ts : List ℕ) (b : CircuitBreaker)
    → IsClosed b
    → 0 < b.failures
    → b.failures + length ts < b.failure_threshold
    → All (λ t. t < b.first_failure_at + b.reset_after_ms) ts
    → fail_all ts b ≡ record b { failures = b.failures + length ts }
unfolding fail_all
fail_all-counts [] b c p few a = ground arith
fail_all-counts (t ∷ ts) b c p few a =
    let once : record_failure t b ≡ record b { failures = b.failures + 1 } =
      (unfold record_failure in ground arith) in
    rw once (
      ground (
        arith,
        fail_all-counts ts (record b { failures = b.failures + 1 })
            (record { active = c.active; settled = c.settled; shut = c.shut }) (omega arith)
            (omega arith) a.1,
      ))

-- An idle, closed breaker with a threshold of two at least opens at the failure that reaches the threshold, when all the failures
-- fall within the window of the first, and it stays open until that failure is
-- `reset_after_ms` old.
pub threshold_opens :
    (b : CircuitBreaker) (first : ℕ) (ts : List ℕ) (last now : ℕ)
    → IsClosed b
    → b.failures ≡ 0
    → length ts + 2 ≡ b.failure_threshold
    → All (λ t. t < first + b.reset_after_ms) ts
    → last < first + b.reset_after_ms
    → now < last + b.reset_after_ms
    → (state now (record_failure last (fail_all (first ∷ ts) b))).0 ≡ open_now
unfolding fail_all
threshold_opens b first ts last now c idle enough within in_time before =
    let started : record_failure first b ≡ record b { failures = 1; first_failure_at = first } =
      (unfold record_failure in ground arith) in
    rw
      (
        started,
        fail_all-counts ts (record b { failures = 1; first_failure_at = first })
            (record { active = c.active; settled = c.settled; shut = c.shut }) (omega arith)
            (omega arith) within,
      )
      (unfold record_failure state in ground arith)

-- How many of the outcomes are failures.
unfoldable pub failures_in : List Outcome → ℕ
failures_in [] = 0
failures_in (success ∷ os) = failures_in os
failures_in (failure t ∷ os) = suc (failures_in os)
failures_in (reading t ∷ os) = failures_in os

few-observe :
    (o : Outcome) (b : CircuitBreaker)
    → IsClosed b
    → b.failures + failures_in (o ∷ []) < b.failure_threshold
    → IsClosed (observe o b)
      × ((observe o b).failures ≤ b.failures + failures_in (o ∷ []))
      × ((observe o b).failure_threshold ≡ b.failure_threshold)
unfolding observe failures_in record_success record_failure state
few-observe success b c few = ground arith
few-observe (failure t) b c few = ground arith
few-observe (reading t) b c few = ground arith

few-observe_all :
    (os : List Outcome) (b : CircuitBreaker)
    → IsClosed b
    → b.failures + failures_in os < b.failure_threshold
    → IsClosed (observe_all os b)
unfolding observe_all failures_in
few-observe_all [] b c few = c
few-observe_all (success ∷ os) b c few =
    let (k, le, same) = few-observe success b c (unfold failures_in in omega arith) in
    few-observe_all os (observe success b) k (omega arith)
few-observe_all (failure t ∷ os) b c few =
    let (k, le, same) = few-observe (failure t) b c (unfold failures_in in omega arith) in
    few-observe_all os (observe (failure t) b) k (omega arith)
few-observe_all (reading t ∷ os) b c few =
    let (k, le, same) = few-observe (reading t) b c (unfold failures_in in omega arith) in
    few-observe_all os (observe (reading t) b) k (omega arith)

-- With fewer failures than the threshold in all, in any order with successes and readings and at
-- any times, a closed breaker never opens.
pub few_failures_stay_closed :
    (os : List Outcome) (b : CircuitBreaker) (now : ℕ)
    → IsClosed b
    → b.failures + failures_in os < b.failure_threshold
    → (state now (observe_all os b)).0 ≡ closed
few_failures_stay_closed os b now c few =
    let k = few-observe_all os b c few in unfold state in ground arith

-- A breaker whose window has elapsed is half-open: it lets calls through. A success then closes
-- it with its history cleared, and a failure opens it again at once, until `reset_after_ms` after
-- that failure.
pub probe_cycle :
    (b : CircuitBreaker) (now later : ℕ)
    → b.enabled ≡ true
    → b.probing ≡ false
    → b.opened_until ≢ 0
    → b.opened_until ≤ now
    → later < now + b.reset_after_ms
    → ((state now b).0 ≡ half_open)
      × ((state later (record_success (state now b).1)).0 ≡ closed)
      × ((record_success (state now b).1).failures ≡ 0)
      × ((state later (record_failure now (state now b).1)).0 ≡ open_now)
unfolding state record_success record_failure
probe_cycle b now later on idle opened elapsed soon =
    (ground arith, ground arith, ground arith, ground arith)

abbrev pub readings : List ℕ → List Outcome
readings [] = []
readings (t ∷ ts) = reading t ∷ readings ts
