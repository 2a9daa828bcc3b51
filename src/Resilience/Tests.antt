-- ===== src/Resilience/Tests.antt =====
-- Runs of the breaker and of `call_with_resilience` (src/hoursx/resilience.py) at concrete inputs.
use hours_x.Prelude.{ℕ, zero, suc, ◌+◌, ◌≡◌, ◌≤◌, refl, [], ◌∷◌, false, some, arith, inr}
use hours_x.Resilience.{
  CircuitBreaker, RetryPolicy, network_error, http_status_error, is_transient, new_breaker, state,
  allows_call, record_failure, open_circuit, half_open_circuit,
}
use hours_x.Resilience.Call.{Attempt, returns, raises, call_with_resilience}
use hours_x.Resilience.Breaker.{asks, succeeds, fails, step, run, IsConsistent, run-IsConsistent}
use hours_x.Resilience.Retry.{IsTransient, DecidedAt, call-DecidedAt}

abbrev fresh : CircuitBreaker
fresh = new_breaker 2 30

abbrev tripped : CircuitBreaker
tripped = record fresh { failures = 2; opened_at = some 7 }

abbrev policy : RetryPolicy
policy = record { attempts = 3; base_delay = 5; max_delay = 80; jitter = false }

-- One server error, then an answer.
abbrev flaky : ℕ → Attempt ℕ
flaky zero = raises network_error
flaky (suc zero) = raises (http_status_error 503)
flaky (suc (suc n)) = returns 42

abbrev clock : ℕ → ℕ
clock n = n + 10

breaker_opens : state (run fresh (fails 3 ∷ fails 7 ∷ [])) 8 ≡ open_circuit
unfolding run step record_failure state
breaker_opens = refl

breaker_probes : state (run fresh (fails 3 ∷ fails 7 ∷ [])) 37 ≡ half_open_circuit
unfolding run step record_failure state
breaker_probes = refl

run-IsConsistent_example : IsConsistent (run fresh (fails 3 ∷ fails 7 ∷ asks 37 ∷ succeeds ∷ []))
run-IsConsistent_example =
    run-IsConsistent fresh (fails 3 ∷ fails 7 ∷ asks 37 ∷ succeeds ∷ [])
      (omega arith, (omega arith, refl))

call-DecidedAt_example :
    DecidedAt
      (λ raw. raw)
      flaky
      clock
      policy
      2
      (some fresh)
      (call_with_resilience (λ raw. raw) flaky clock policy (some fresh))
unfolding is_transient allows_call state
call-DecidedAt_example =
    call-DecidedAt (λ raw. raw) flaky clock policy 2 (some fresh) (omega arith) (omega arith)
      only_first (inr (λ h. h)) refl
  where
    only_first : (j : ℕ) → 1 ≤ j → suc j ≤ 2 → IsTransient (flaky j)
    only_first zero lo hi = absurd (omega arith)
    only_first (suc zero) lo hi = refl
    only_first (suc (suc j)) lo hi = absurd (omega arith)
