-- ===== src/Resilience/Breaker.antt =====
-- What the circuit breaker of src/hoursx/resilience.py guarantees over any history of its calls.
use hours_x.Prelude.{
  ℕ, zero, suc, ◌+◌, ◌-◌, ◌≤◌, ◌<◌, ◌≡◌, refl, List, [], ◌∷◌, true, false, Option, none, some,
  arith, subst, ◌⊎◌, inl, inr, leb, Bool-cases,
}
use hours_x.Resilience.{CircuitBreaker, state, allows_call, record_success, record_failure}

-- What the tasks that share a breaker do to it, in the order in which it happens.
pub data Event : Type 0 where
  asks : ℕ → Event
  succeeds : Event
  fails : ℕ → Event

unfoldable pub step : CircuitBreaker → Event → CircuitBreaker
step b (asks now) = (allows_call b now).1
step b succeeds = record_success b
step b (fails now) = record_failure b now

unfoldable pub run : CircuitBreaker → List Event → CircuitBreaker
run b [] = b
run b (e ∷ es) = run (step b e) es

-- Closed means below the threshold with no trial pending; open means that it was reached.
abbrev pub IsConsistent : CircuitBreaker → Type 0
IsConsistent b = (0 < b.failure_threshold) × (elim b.opened_at [
  | none ↦ (b.failures < b.failure_threshold) × (b.half_open ≡ false)
  | some _ ↦ b.failure_threshold ≤ b.failures
])

step-IsConsistent : (b : CircuitBreaker) (e : Event) → IsConsistent b → IsConsistent (step b e)
unfolding step allows_call record_success record_failure state
step-IsConsistent b (asks now) h = ground arith
step-IsConsistent b succeeds h = ground arith
step-IsConsistent b (fails now) h = ground arith

-- From a consistent breaker on, whatever the tasks that share it do, in any order: a closed breaker has
-- counted fewer failures than its threshold and has no trial pending, an open one has reached it.
pub run-IsConsistent :
    (b : CircuitBreaker) (es : List Event) → IsConsistent b → IsConsistent (run b es)
unfolding run
run-IsConsistent b [] h = h
run-IsConsistent b (e ∷ es) h = run-IsConsistent (step b e) es (step-IsConsistent b e h)

abbrev pub failing : List ℕ → List Event
failing [] = []
failing (t ∷ ts) = fails t ∷ failing ts

-- Opened by the failure that reaches the threshold, `left` failures from here.
abbrev pub opening : ℕ → List ℕ → Option ℕ
opening left [] = none
opening zero (t ∷ ts) = some t
opening (suc zero) (t ∷ ts) = some t
opening (suc (suc left)) (t ∷ ts) = opening (suc left) ts

stays_open :
    (b : CircuitBreaker) (t : ℕ) (ts : List ℕ)
    → b.half_open ≡ false
    → b.opened_at ≡ some t
    → (run b (failing ts)).opened_at ≡ some t
unfolding run step record_failure
stays_open b t [] h o = o
stays_open b t (u ∷ ts) h o = stays_open (record_failure b u) t ts (ground arith) (ground arith)

opens_in :
    (b : CircuitBreaker) (left : ℕ) (ts : List ℕ)
    → b.half_open ≡ false
    → b.opened_at ≡ none
    → b.failures + suc left ≡ b.failure_threshold
    → (run b (failing ts)).opened_at ≡ opening (suc left) ts
unfolding run step record_failure
opens_in b left [] h o e = o
opens_in b zero (u ∷ ts) h o e = stays_open (record_failure b u) u ts (ground arith) (ground arith)
opens_in b (suc left) (u ∷ ts) h o e =
    opens_in (record_failure b u) left ts (ground arith) (ground arith) (ground arith)

-- After a success the circuit opens at the time of the failure that makes `failure_threshold`
-- failures in a row, and not before; later failures do not move that time.
pub opens_at_threshold :
    (b : CircuitBreaker) (ts : List ℕ)
    → 0 < b.failure_threshold
    → (run (record_success b) (failing ts)).opened_at ≡ opening b.failure_threshold ts
unfolding record_success
opens_at_threshold b ts h =
    let e : suc (b.failure_threshold - 1) ≡ b.failure_threshold = omega arith in
    subst (λ n. (run (record_success b) (failing ts)).opened_at ≡ opening n ts) e
      (opens_in (record_success b) (b.failure_threshold - 1) ts refl refl (omega arith))

-- Inside the window every call is refused and the breaker stays as it is; from its end on the next
-- call is the trial, whose failure opens the circuit anew from the time of that failure, whatever
-- the count is, and whose success closes it with the count at zero.
pub trial_decides :
    (b : CircuitBreaker) (opened now later : ℕ)
    → b.opened_at ≡ some opened
    → ((now < opened + b.recovery_seconds) × (allows_call b now ≡ (false, b)))
      ⊎ ((opened + b.recovery_seconds ≤ now)
          × ((allows_call b now).0 ≡ true)
          × ((record_failure (allows_call b now).1 later).opened_at ≡ some later)
          × ((record_success (allows_call b now).1).opened_at ≡ none)
          × ((record_success (allows_call b now).1).failures ≡ 0))
unfolding allows_call state record_failure record_success
trial_decides b opened now later o = elim (Bool-cases (leb (opened + b.recovery_seconds) now)) [
  | inl h ↦ inr (ground arith)
  | inr h ↦ inl (ground arith)
]

pub refuses_inside :
    (b : CircuitBreaker) (opened now : ℕ)
    → b.opened_at ≡ some opened
    → now < opened + b.recovery_seconds
    → allows_call b now ≡ (false, b)
unfolding allows_call state
refuses_inside b opened now o h = ground arith
