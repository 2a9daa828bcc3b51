-- ===== src/Routing/Tests.antt =====
-- The router of src/hoursx/providers/router.py at a concrete configuration.
use hours_x.Prelude.{ℕ, ◌≡◌, refl, [], ◌∷◌, true, false, none, some, String, arith}
use hours_x.Prelude.Dict.{lookup}
use hours_x.Resilience.{CircuitBreaker, new_breaker, record_success}
use hours_x.Resilience.Call.{Attempt, returns}
use hours_x.Routing.{ModelRouter, resolve, stream, note_stream_outcome}
use hours_x.Routing.Streams.{stream_credits_primary}

abbrev broken : CircuitBreaker
broken = record (new_breaker 2 30) { failures = 2; opened_at = some 7 }

abbrev router : ModelRouter
router = record {
  providers = ("anthropic", "anthropic") ∷ ("echo", "echo") ∷ [];
  aliases = ("deep", "anthropic/large") ∷ [];
  fallbacks = ("deep", "echo/small" ∷ []) ∷ [];
  retry = record { attempts = 2; base_delay = 5; max_delay = 80; jitter = false };
  breakers = ("anthropic", broken) ∷ ("echo", new_breaker 2 30) ∷ [];
}

-- Every call answers with the name's own number.
abbrev answers : ℕ → String → String → ℕ → Attempt ℕ
answers link name model attempt = returns link

abbrev clock : ℕ → ℕ → ℕ
clock link attempt = 20

resolve_alias : resolve router "deep" ≡ some ("anthropic", "large")
unfolding resolve lookup
resolve_alias = refl

resolve_needs_model : resolve router "anthropic" ≡ none
unfolding resolve lookup
resolve_needs_model = refl

stream_credits_primary_example :
    lookup "anthropic" (note_stream_outcome (stream router 20 "deep").1 21 "deep" true).breakers
    ≡ some (record_success broken)
unfolding resolve lookup
stream_credits_primary_example =
    (stream_credits_primary router 20 21 "deep" "anthropic" "large" broken refl refl
      (7, refl, omega arith)).1
