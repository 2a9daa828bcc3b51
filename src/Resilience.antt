-- ===== src/Resilience.antt =====
-- src/hoursx/resilience.py: the retry policy and the circuit breaker of outbound provider calls.
-- `time.monotonic()` is a number of ticks that each operation is given; the fields of a breaker are
-- those of the class.
pub mod Call
pub mod Breaker
pub mod Retry
pub mod Tests
use hours_x.Prelude.{
  ℕ, ◌+◌, ◌-◌, ◌*◌, ◌^◌, min, Bool, true, false, Option, none, some, leb, ◌==◌, ◌||◌, if◌then◌else◌,
}

-- What an awaited operation may raise, as far as `is_transient` tells it apart.
pub data Exc : Type 0 where
  http_status_error : ℕ → Exc
  timeout_exception network_error remote_protocol_error : Exc
  asyncio_timeout_error connection_error : Exc
  other_exception : Exc

retryable_status : ℕ → Bool
retryable_status s =
    s == 408 || s == 409 || s == 425 || s == 429 || s == 500 || s == 502 || s == 503 || s == 504

unfoldable pub is_transient : Exc → Bool
unfolding retryable_status
is_transient (http_status_error s) = retryable_status s
is_transient timeout_exception = true
is_transient network_error = true
is_transient remote_protocol_error = true
is_transient asyncio_timeout_error = true
is_transient connection_error = true
is_transient other_exception = false

-- Delays are in ticks. `uniform raw` is the draw of `random.uniform(0, raw)`.
pub record RetryPolicy : Type 0 where
  pub attempts : ℕ
  pub base_delay : ℕ
  pub max_delay : ℕ
  pub jitter : Bool

unfoldable pub delay_for : (ℕ → ℕ) → RetryPolicy → ℕ → ℕ
delay_for uniform policy attempt =
    let raw = min (policy.base_delay * 2 ^ (attempt - 1)) policy.max_delay in
    if policy.jitter then uniform raw else raw

pub data BreakerState : Type 0 where
  closed open_circuit half_open_circuit : BreakerState

pub record CircuitBreaker : Type 0 where
  pub failure_threshold : ℕ
  pub recovery_seconds : ℕ
  pub failures : ℕ
  pub opened_at : Option ℕ
  pub half_open : Bool

abbrev pub new_breaker : ℕ → ℕ → CircuitBreaker
new_breaker threshold recovery = record {
  failure_threshold = threshold;
  recovery_seconds = recovery;
  failures = 0;
  opened_at = none;
  half_open = false;
}

unfoldable pub state : CircuitBreaker → ℕ → BreakerState
state b now = elim b.opened_at [
  | none ↦ closed
  | some opened ↦ if leb (opened + b.recovery_seconds) now then half_open_circuit else open_circuit
]

-- The answer, and the breaker after it: the first call past the window is the trial call.
unfoldable pub allows_call : CircuitBreaker → ℕ → Bool × CircuitBreaker
allows_call b now = elim (state b now) [
  | closed ↦ (true, b)
  | open_circuit ↦ (false, b)
  | half_open_circuit ↦ (true, record b { half_open = true })
]

unfoldable pub record_success : CircuitBreaker → CircuitBreaker
record_success b = record b { failures = 0; opened_at = none; half_open = false }

-- The count is past the threshold and the circuit is not open yet.
opens_now : CircuitBreaker → ℕ → Bool
opens_now b failures = elim b.opened_at [ none ↦ leb b.failure_threshold failures | some _ ↦ false ]

unfoldable pub record_failure : CircuitBreaker → ℕ → CircuitBreaker
unfolding opens_now
record_failure b now =
    if b.half_open
    then record b { failures = b.failure_threshold; opened_at = some now; half_open = false }
    else if opens_now b (b.failures + 1)
    then record b { failures = b.failures + 1; opened_at = some now }
    else record b { failures = b.failures + 1 }

unfoldable pub reset : CircuitBreaker → CircuitBreaker
unfolding record_success
reset b = record_success b
