-- ===== src/CircuitBreaker/Invariant.antt =====
-- The states that the breaker reaches, and what runs of outcomes do to it.
use safecache.Base.{ℕ, ◌<◌, ◌≡◌, ◌⊎◌, true, false, arith}
use safecache.CircuitBreaker.{CircuitBreaker, state, record_success, record_failure}

-- An idle breaker counts nothing; a streak is shorter than the threshold, and a window that is
-- probed is not open.
pub record IsValid (b : CircuitBreaker) : Type 0 where
  pub disabled : b.enabled ≡ false → (b.failures ≡ 0) × (b.opened_until ≡ 0) × (b.probing ≡ false)
  pub streak : (b.failures ≡ 0) ⊎ (b.failures < b.failure_threshold)
  pub window : b.failures ≡ 0 → b.first_failure_at ≡ 0
  pub probe : b.probing ≡ true → b.opened_until ≡ 0

pub state-IsValid : (now : ℕ) (b : CircuitBreaker) → IsValid b → IsValid (state now b).1
unfolding state
state-IsValid now b v = ground arith

pub record_success-IsValid : (b : CircuitBreaker) → IsValid b → IsValid (record_success b)
unfolding record_success
record_success-IsValid b v = ground arith

pub record_failure-IsValid :
    (now : ℕ) (b : CircuitBreaker) → IsValid b → IsValid (record_failure now b)
unfolding record_failure
record_failure-IsValid now b v = ground arith
