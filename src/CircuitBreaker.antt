-- ===== src/CircuitBreaker.antt =====
-- packages/core/src/circuit-breaker.ts. The clock's reading is an argument of each operation
-- that reads it; times and thresholds are natural numbers.
pub mod Invariant
pub mod Runs
pub mod Recovery
use safecache.Base.{
  ℕ, zero, suc, ◌+◌, ◌-◌, Bool, true, false, ◌||◌, Option, none, some, ltb, leb, nat_eq,
  if◌then◌else◌,
}
use safecache.Text.{Text, codes}
use safecache.Result.{Result, ok, throw, ◌>>=◌}
use safecache.Duration.{DurationInput, DurationError, text, parse_duration}

pub data CircuitState : Type 0 where
  closed open_now half_open : CircuitState

pub record CircuitBreaker : Type 0 where
  pub failures : ℕ
  pub first_failure_at : ℕ
  pub opened_until : ℕ
  pub probing : Bool
  pub enabled : Bool
  pub failure_threshold : ℕ
  pub reset_after_ms : ℕ

-- `safety.circuitBreaker`: absent or false, true, or a part of the options.
pub record BreakerOptions : Type 0 where
  pub enabled : Option Bool
  pub failure_threshold : Option ℕ
  pub reset_after : Option DurationInput

pub data BreakerSetting : Type 0 where
  off on : BreakerSetting
  custom : BreakerOptions → BreakerSetting

-- `value ?? fallback`
abbrev pub or_default {ℓ} : {A : Type ℓ} → Option A → A → A
or_default none a = a
or_default (some b) a = b

abbrev fresh : Bool → ℕ → ℕ → CircuitBreaker
fresh enabled threshold reset_after_ms = record {
  failures = 0;
  first_failure_at = 0;
  opened_until = 0;
  probing = false;
  enabled = enabled;
  failure_threshold = threshold;
  reset_after_ms = reset_after_ms;
}

unfoldable pub create : BreakerSetting → Result DurationError CircuitBreaker
create off = ok (fresh false 0 0)
create on = do
  reset ← parse_duration (text (codes "30s")) (codes "duration")
  ok (fresh true 5 reset)
create (custom o) = do
  reset ← parse_duration (or_default o.reset_after (text (codes "30s"))) (codes "duration")
  ok (fresh (or_default o.enabled true) (or_default o.failure_threshold 5) reset)

-- `get state()`: reading it moves an elapsed open window to half-open.
unfoldable pub state : ℕ → CircuitBreaker → CircuitState × CircuitBreaker
state now b =
    if b.enabled
    then if b.probing
      then (half_open, b)
      else if nat_eq b.opened_until 0
      then (closed, b)
      else if leb b.opened_until now
      then (half_open, record b { probing = true; opened_until = 0 })
      else (open_now, b)
    else (closed, b)

abbrev pub is_open_state : CircuitState → Bool
is_open_state open_now = true
is_open_state _ = false

-- `get isOpen()`
unfoldable pub is_open : ℕ → CircuitBreaker → Bool × CircuitBreaker
unfolding state
is_open now b = let (s, b') = state now b in (is_open_state s, b')

unfoldable pub reset : CircuitBreaker → CircuitBreaker
reset b = record b { failures = 0; first_failure_at = 0; opened_until = 0; probing = false }

unfoldable pub record_success : CircuitBreaker → CircuitBreaker
unfolding reset
record_success b =
    if b.enabled
    then if b.probing
      then reset b
      else if ltb 0 b.failures
      then record b {
        failures = b.failures - 1;
        first_failure_at = if nat_eq (b.failures - 1) 0 then 0 else b.first_failure_at;
      }
      else b
    else b

-- The window of the streak: a new one starts when there is no streak or it is too old.
unfoldable pub count_failure : ℕ → CircuitBreaker → CircuitBreaker
count_failure now b =
    if nat_eq b.failures 0 || leb (b.first_failure_at + b.reset_after_ms) now
    then record b { failures = 1; first_failure_at = now }
    else record b { failures = b.failures + 1 }

unfoldable pub trip : ℕ → CircuitBreaker → CircuitBreaker
trip now b =
    if leb b.failure_threshold b.failures
    then record b { failures = 0; first_failure_at = 0; opened_until = now + b.reset_after_ms }
    else b

unfoldable pub record_failure : ℕ → CircuitBreaker → CircuitBreaker
unfolding count_failure trip
record_failure now b =
    if b.enabled
    then if b.probing
      then record b { probing = false; opened_until = now + b.reset_after_ms }
      else trip now (count_failure now b)
    else b
