-- ===== src/Resilience/Call.antt =====
-- `call_with_resilience` of src/hoursx/resilience.py. The awaited operation is a script: what its
-- k-th call yields, and the time at which that is known.
use hours_x.Prelude.{
  ℕ, zero, suc, ◌-◌, List, [], ◌∷◌, ◌++◌, Bool, true, false, Option, none, some, ◌==◌,
  if◌then◌else◌,
}
use hours_x.Resilience.{
  Exc, CircuitBreaker, RetryPolicy, is_transient, delay_for, allows_call, record_success,
  record_failure,
}

pub data Attempt {ℓ} (A : Type ℓ) : Type ℓ where
  returns : A → Attempt A
  raises : Exc → Attempt A

pub data CallResult {ℓ} (A : Type ℓ) : Type ℓ where
  returned : A → CallResult A
  raised : Exc → CallResult A
  circuit_open_error : CallResult A
  -- `assert last is not None`
  assertion_error : CallResult A

-- What a call leaves: its result, the breaker, the calls made and the delays slept.
pub record Done {ℓ} (A : Type ℓ) : Type ℓ where
  pub result : CallResult A
  pub breaker : Option CircuitBreaker
  pub calls : ℕ
  pub sleeps : List ℕ

abbrev pub note_success : Option CircuitBreaker → Option CircuitBreaker
note_success none = none
note_success (some b) = some (record_success b)

abbrev pub note_failure : Option CircuitBreaker → ℕ → Option CircuitBreaker
note_failure none now = none
note_failure (some b) now = some (record_failure b now)

abbrev raise_last {ℓ} : {A : Type ℓ} → Option Exc → CallResult A
raise_last none = assertion_error
raise_last (some e) = raised e

module _ {ℓ} {A : Type ℓ} (uniform : ℕ → ℕ) (operation : ℕ → Attempt A) (clock : ℕ → ℕ)
    (policy : RetryPolicy) where
  -- Past the loop: one failure for the whole call.
  exhausted : ℕ → Option Exc → Option CircuitBreaker → List ℕ → Done A
  exhausted made last b sleeps = record {
    result = raise_last last;
    breaker = note_failure b (clock made);
    calls = made;
    sleeps = sleeps;
  }

  -- `for attempt in range(1, attempts + 1)`, with the number of rounds left.
  unfoldable pub attempt_loop : ℕ → ℕ → Option Exc → Option CircuitBreaker → List ℕ → Done A
  unfolding exhausted
  attempt_loop zero attempt last b sleeps = exhausted (attempt - 1) last b sleeps
  attempt_loop (suc rounds) attempt last b sleeps =
      let again = λ (e : Exc).
        attempt_loop rounds (suc attempt) (some e) b
          (sleeps ++ delay_for uniform policy attempt ∷ []) in
      elim (operation attempt) [
        | returns a ↦ record {
          result = returned a;
          breaker = note_success b;
          calls = attempt;
          sleeps = sleeps;
        }
        | raises e ↦
            if is_transient e
            then (if attempt == policy.attempts
                then exhausted attempt (some e) b sleeps
                else again e)
            else record {
              result = raised e;
              breaker = note_failure b (clock attempt);
              calls = attempt;
              sleeps = sleeps;
            }
      ]

  admitted : Bool × CircuitBreaker → Done A
  admitted (true, b) = attempt_loop policy.attempts 1 none (some b) []
  admitted (false, b) = record {
    result = circuit_open_error;
    breaker = some b;
    calls = 0;
    sleeps = [];
  }

  unfoldable pub call_with_resilience : Option CircuitBreaker → Done A
  unfolding admitted
  call_with_resilience none = attempt_loop policy.attempts 1 none none []
  call_with_resilience (some b) = admitted (allows_call b (clock 0))
