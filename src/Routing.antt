-- ===== src/Routing.antt =====
-- src/hoursx/providers/router.py: alias resolution, fallback chains and the breaker of each provider.
-- A provider is known by its name; what its calls yield is a script over links and attempts.
pub mod Fallback
pub mod Streams
pub mod Tests
use Prim.Native.Char.{code}
use Prim.Native.String
use hours_x.Prelude.{
  ℕ, suc, List, [], ◌∷◌, Bool, true, false, Option, none, some, String, ◌==◌, str_eq, if◌then◌else◌,
}
use hours_x.Prelude.Dict.{lookup, insert}
use hours_x.Resilience.{CircuitBreaker, RetryPolicy, allows_call, record_success, record_failure}
use hours_x.Resilience.Call.{
  Attempt, CallResult, returned, raised, circuit_open_error, assertion_error, Done,
  call_with_resilience,
}

pub record ModelRouter : Type 0 where
  pub providers : List (String × String)
  pub aliases : List (String × String)
  pub fallbacks : List (String × List String)
  pub retry : RetryPolicy
  pub breakers : List (String × CircuitBreaker)

abbrev pub get_default : List (String × String) → String → String
get_default d k = elim (lookup k d) [ none ↦ k | some v ↦ v ]

-- `ref.partition("/")`: what stands before the first slash, and after it.
unfoldable pub partition : String → String × String
partition String.[] = ("", "")
partition (String.◌∷◌ c s) =
    let (before, after) = partition s in
    if code c == b'/' then ("", s) else (String.◌∷◌ c before, after)

-- The provider's name and the model; `none` is the `ProviderError`.
unfoldable pub resolve : ModelRouter → String → Option (String × String)
unfolding partition
resolve r ref_or_alias =
    let (provider_name, model) = partition (get_default r.aliases ref_or_alias) in
    if str_eq model ""
    then none
    else elim (lookup provider_name r.providers) [ none ↦ none | some name ↦ some (name, model) ]

abbrev fallbacks_of : ModelRouter → String → List String
fallbacks_of r ref_or_alias = elim (lookup ref_or_alias r.fallbacks) [
  | none ↦ []
  | some refs ↦ refs
]

unfoldable pub chain : ModelRouter → String → List String
chain r ref_or_alias = get_default r.aliases ref_or_alias ∷ fallbacks_of r ref_or_alias

-- The breaker is one object, shared by all calls: what a call left is stored back.
abbrev pub set_breaker : ModelRouter → String → Option CircuitBreaker → ModelRouter
set_breaker r name none = r
set_breaker r name (some b) = record r { breakers = insert name b r.breakers }

module _ {ℓ} {A : Type ℓ} (uniform : ℕ → ℕ) (operation : ℕ → String → String → ℕ → Attempt A)
    (clock : ℕ → ℕ → ℕ) where
  -- One link of the chain: the call under the retry policy and the provider's breaker.
  unfoldable pub call_link : ModelRouter → ℕ → String × String → Done A
  call_link r link (name, model) =
      call_with_resilience uniform (operation link name model) (clock link) r.retry
        (lookup name r.breakers)

  -- Walks the chain; `none` is the final `ProviderError`. Any failure of a link goes on.
  unfoldable pub complete_chain : ModelRouter → ℕ → List String → Option A × ModelRouter
  complete_chain r link [] = (none, r)
  complete_chain r link (ref ∷ rest) = elim (resolve r ref) [
    | none ↦ complete_chain r (suc link) rest
    | some (name, model) ↦
        let d = call_link r link (name, model) in
        let r' = set_breaker r name d.breaker in
        elim d.result [ returned a ↦ (some a, r') | _ ↦ complete_chain r' (suc link) rest ]
  ]

  unfoldable pub complete : ModelRouter → String → Option A × ModelRouter
  complete r ref_or_alias = complete_chain r 0 (chain r ref_or_alias)

-- Streaming picks the first link that resolves and whose breaker admits it, and never goes back.
unfoldable pub stream_chain : ModelRouter → ℕ → List String → Option (String × String) × ModelRouter
stream_chain r now [] = (none, r)
stream_chain r now (ref ∷ rest) = elim (resolve r ref) [
  | none ↦ stream_chain r now rest
  | some (name, model) ↦ elim (lookup name r.breakers) [
    | none ↦ (some (name, model), r)
    | some b ↦
        let r' = set_breaker r name (some (allows_call b now).1) in
        if (allows_call b now).0 then (some (name, model), r') else stream_chain r' now rest
  ]
]

unfoldable pub stream : ModelRouter → ℕ → String → Option (String × String) × ModelRouter
stream r now ref_or_alias = stream_chain r now (chain r ref_or_alias)

abbrev outcome_on : Bool → CircuitBreaker → ℕ → CircuitBreaker
outcome_on true b now = record_success b
outcome_on false b now = record_failure b now

-- `self._chain(ref_or_alias)[0]` exists always: the chain begins with the primary.
unfoldable pub note_stream_outcome : ModelRouter → ℕ → String → Bool → ModelRouter
note_stream_outcome r now ref_or_alias ok = elim (resolve r (get_default r.aliases ref_or_alias)) [
  | none ↦ r
  | some (name, model) ↦ elim (lookup name r.breakers) [
    | none ↦ r
    | some b ↦ set_breaker r name (some (outcome_on ok b now))
  ]
]
