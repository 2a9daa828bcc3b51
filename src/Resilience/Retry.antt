-- ===== src/Resilience/Retry.antt =====
-- What `call_with_resilience` of src/hoursx/resilience.py returns, and what it costs.
use hours_x.Prelude.{
  ℕ, zero, suc, ◌+◌, ◌-◌, ◌*◌, ◌^◌, min, ◌≤◌, ◌<◌, ◌≡◌, refl, List, [], ◌∷◌, ◌++◌, true, Option,
  none, some, arith, length, length-append, All, All-snoc, ◌⊎◌, inl, inr, subst, sym,
}
use native.Mathlib.Decide.{ℕ_discrete}
use hours_x.Resilience.{Exc, CircuitBreaker, RetryPolicy, is_transient, delay_for, allows_call}
use hours_x.Resilience.Breaker.{refuses_inside}
use hours_x.Resilience.Call.{
  Attempt, returns, raises, CallResult, returned, raised, circuit_open_error, Done, note_success,
  note_failure, attempt_loop, call_with_resilience,
}

-- The attempt failed in a way that is worth another.
abbrev pub IsTransient {ℓ} : {A : Type ℓ} → Attempt A → Type 0
IsTransient (returns a) = ⊥
IsTransient (raises e) = is_transient e ≡ true

abbrev pub verdict {ℓ} : {A : Type ℓ} → Attempt A → CallResult A
verdict (returns a) = returned a
verdict (raises e) = raised e

-- The breaker hears of one success, or of one failure at the time of the deciding attempt.
abbrev pub heard {ℓ} : {A : Type ℓ} → Attempt A → Option CircuitBreaker → ℕ → Option CircuitBreaker
heard (returns a) b now = note_success b
heard (raises e) b now = note_failure b now

module _ {ℓ} {A : Type ℓ} (uniform : ℕ → ℕ) (operation : ℕ → Attempt A) (clock : ℕ → ℕ)
    (policy : RetryPolicy) where
  -- `d` is what remains when the k-th attempt decides the call.
  abbrev pub DecidedAt : ℕ → Option CircuitBreaker → Done A → Type ℓ
  DecidedAt k b d =
      (d.result ≡ verdict (operation k))
      × (d.breaker ≡ heard (operation k) b (clock k))
      × (d.calls ≡ k)
      × (suc (length d.sleeps) ≡ k)

  -- The k-th attempt ends the call: it settles it, or it is the last.
  abbrev pub EndsAt : ℕ → Type 0
  EndsAt k = (k ≡ policy.attempts) ⊎ (¬ IsTransient (operation k))

  transient_error :
      (x : Attempt A) → IsTransient x → (e : Exc) × (x ≡ raises e) × (is_transient e ≡ true)
  transient_error (returns a) h = absurd h
  transient_error (raises e) h = (e, refl, h)

  abbrev loop_from : ℕ → ℕ → Option Exc → Option CircuitBreaker → List ℕ → Done A
  loop_from = attempt_loop uniform operation clock policy

  loop_again :
      (rounds attempt : ℕ) (last : Option Exc) (b : Option CircuitBreaker) (sleeps : List ℕ)
      (e : Exc)
      → operation attempt ≡ raises e
      → is_transient e ≡ true
      → attempt < policy.attempts
      → loop_from (suc rounds) attempt last b sleeps
        ≡ loop_from rounds
            (suc attempt)
            (some e)
            b
            (sleeps ++ delay_for uniform policy attempt ∷ [])
  unfolding attempt_loop
  loop_again rounds attempt last b sleeps e o t h = rw (o, t, attempt_loop) (ground arith)

  loop_ends :
      (rounds attempt : ℕ) (last : Option Exc) (b : Option CircuitBreaker) (sleeps : List ℕ)
      → EndsAt attempt
      → suc (length sleeps) ≡ attempt
      → DecidedAt attempt b (loop_from (suc rounds) attempt last b sleeps)
  unfolding attempt_loop
  loop_ends rounds attempt last b sleeps ends s = ground arith

  loop_decides :
      (rounds attempt k : ℕ) (last : Option Exc) (b : Option CircuitBreaker) (sleeps : List ℕ)
      → rounds + attempt ≡ suc policy.attempts
      → attempt ≤ k
      → k ≤ policy.attempts
      → ((j : ℕ) → attempt ≤ j → j < k → IsTransient (operation j))
      → EndsAt k
      → suc (length sleeps) ≡ attempt
      → DecidedAt k b (loop_from rounds attempt last b sleeps)
  loop_decides zero attempt k last b sleeps e lo hi before ends s = absurd (omega arith)
  loop_decides (suc rounds) attempt k last b sleeps e lo hi before ends s =
      elim (ℕ_discrete attempt k) [
        | yes here ↦
            subst (λ n. DecidedAt n b (loop_from (suc rounds) attempt last b sleeps)) here
              (loop_ends rounds attempt last b sleeps (subst EndsAt (sym here) ends) s)
        | no there ↦
            let (x, o, t) =
              transient_error (operation attempt) (before attempt (omega arith) (omega arith)) in
            rw (loop_again rounds attempt last b sleeps x o t (omega arith)) (
              loop_decides rounds (suc attempt) k (some x) b
                (sleeps ++ delay_for uniform policy attempt ∷ []) (omega arith) (omega arith) hi
                (λ j lo' hi'. before j (omega arith) hi') ends
                (omega (arith, length-append sleeps (delay_for uniform policy attempt ∷ []))))
      ]

  abbrev breaker_after_ask : Option CircuitBreaker → Option CircuitBreaker
  breaker_after_ask none = none
  breaker_after_ask (some b) = some (allows_call b (clock 0)).1

  abbrev Admits : Option CircuitBreaker → Type 0
  Admits none = Unit {0}
  Admits (some b) = (allows_call b (clock 0)).0 ≡ true

  -- Let every attempt before the k-th fail in a transient way, and let the k-th be the last that the
  -- policy allows or one that settles the call. If the breaker admits the call, then its result is
  -- that of attempt k, the operation is called k times with a delay before each repetition, and the
  -- breaker hears exactly once of the call: a success, or one failure at the time of attempt k.
  pub call-DecidedAt :
      (k : ℕ) (b : Option CircuitBreaker)
      → 1 ≤ k
      → k ≤ policy.attempts
      → ((j : ℕ) → 1 ≤ j → j < k → IsTransient (operation j))
      → EndsAt k
      → Admits b
      → DecidedAt k (breaker_after_ask b) (call_with_resilience uniform operation clock policy b)
  unfolding call_with_resilience
  call-DecidedAt k none lo hi before ends h =
      loop_decides policy.attempts 1 k none none [] (omega arith) lo hi before ends refl
  call-DecidedAt k (some b) lo hi before ends h =
      rw (h, call_with_resilience)
        (loop_decides policy.attempts 1 k none (some (allows_call b (clock 0)).1) [] (omega arith)
          lo hi before ends refl)

  -- While the breaker refuses, nothing is called, nothing is slept and the breaker stays as it is.
  pub call_refused :
      (b : CircuitBreaker) (opened : ℕ)
      → b.opened_at ≡ some opened
      → clock 0 < opened + b.recovery_seconds
      → call_with_resilience uniform operation clock policy (some b)
        ≡ record { result = circuit_open_error; breaker = some b; calls = 0; sleeps = [] }
  unfolding call_with_resilience
  call_refused b opened o h = rw (refuses_inside b opened (clock 0) o h, call_with_resilience) refl

  attempt_cases : (x : Attempt A) → ((a : A) × (x ≡ returns a)) ⊎ ((e : Exc) × (x ≡ raises e))
  attempt_cases (returns a) = inl (a, refl)
  attempt_cases (raises e) = inr (e, refl)

  delay_for-le :
      ((raw : ℕ) → uniform raw ≤ raw) → (n : ℕ) → delay_for uniform policy n ≤ policy.max_delay
  unfolding delay_for
  delay_for-le u n = ground (arith, u (min (policy.base_delay * 2 ^ (n - 1)) policy.max_delay))

  loop_delays :
      ((raw : ℕ) → uniform raw ≤ raw)
      → (rounds attempt : ℕ) (last : Option Exc) (b : Option CircuitBreaker) (sleeps : List ℕ)
      → All (λ d. d ≤ policy.max_delay) sleeps
      → All (λ d. d ≤ policy.max_delay) (loop_from rounds attempt last b sleeps).sleeps
  unfolding attempt_loop
  loop_delays u zero attempt last b sleeps h = h
  loop_delays u (suc rounds) attempt last b sleeps h = elim (attempt_cases (operation attempt)) [
    | inl (a, o) ↦ rw (o, attempt_loop) h
    | inr (e, o) ↦
        rw (o, attempt_loop)
          (ground (
            arith,
            All-snoc _ sleeps (delay_for uniform policy attempt) h (delay_for-le u attempt),
            loop_delays u rounds (suc attempt) (some e) b
                (sleeps ++ delay_for uniform policy attempt ∷ []),
          ))
  ]

  -- Every delay that a call sleeps is within the policy's maximum, whatever the jitter draws.
  pub call_delays :
      (b : Option CircuitBreaker)
      → ((raw : ℕ) → uniform raw ≤ raw)
      → All
          (λ d. d ≤ policy.max_delay)
          (call_with_resilience uniform operation clock policy b).sleeps
  unfolding call_with_resilience
  call_delays none u = loop_delays u policy.attempts 1 none none [] tt
  call_delays (some b) u =
      ground (arith, loop_delays u policy.attempts 1 none (some (allows_call b (clock 0)).1) [] tt)
