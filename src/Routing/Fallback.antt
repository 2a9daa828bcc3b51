-- ===== src/Routing/Fallback.antt =====
-- Fallback chains of src/hoursx/providers/router.py: which link answers, and which breaker hears of it.
use hours_x.Prelude.{
  ℕ, suc, ◌+◌, ◌<◌, ◌≡◌, ◌∙◌, ap, refl, ◌⊎◌, inl, inr, List, [], ◌∷◌, ◌++◌, Option, none, some,
  String, arith, length,
}
use hours_x.Prelude.Dict.{lookup, insert_same}
use hours_x.Resilience.{CircuitBreaker}
use hours_x.Resilience.Call.{Attempt, returned, circuit_open_error}
use hours_x.Resilience.Retry.{call_refused}
use hours_x.Routing.{ModelRouter, resolve, chain, set_breaker, call_link, complete_chain, complete}

-- The circuit is fully open at that time.
abbrev pub IsOpenAt : CircuitBreaker → ℕ → Type 0
IsOpenAt b now = (opened : ℕ) × (b.opened_at ≡ some opened) × (now < opened + b.recovery_seconds)

-- The link's provider has its circuit open at that time.
abbrev pub IsBroken : ModelRouter → ℕ → String → Type 0
IsBroken r now ref =
    (name : String) × (model : String) × (b : CircuitBreaker) × (resolve r ref ≡ some (name, model))
    × (lookup name r.breakers ≡ some b)
    × IsOpenAt b now

module _ {ℓ} {A : Type ℓ} (uniform : ℕ → ℕ) (operation : ℕ → String → String → ℕ → Attempt A)
    (clock : ℕ → ℕ → ℕ) where
  -- No link of the list can be used: it does not resolve, or its circuit is open.
  abbrev pub Skipped : ModelRouter → ℕ → List String → Type 0
  Skipped r link [] = Unit
  Skipped r link (ref ∷ refs) =
      ((resolve r ref ≡ none) ⊎ IsBroken r (clock link 0) ref) × Skipped r (suc link) refs

  abbrev walk : ModelRouter → ℕ → List String → Option A × ModelRouter
  walk = complete_chain uniform operation clock

  call_link_refused :
      (r : ModelRouter) (link : ℕ) (name model : String) (b : CircuitBreaker)
      → lookup name r.breakers ≡ some b
      → IsOpenAt b (clock link 0)
      → call_link uniform operation clock r link (name, model)
        ≡ record { result = circuit_open_error; breaker = some b; calls = 0; sleeps = [] }
  unfolding call_link
  call_link_refused r link name model b l (opened, o, h) =
      rw l (call_refused uniform (operation link name model) (clock link) r.retry b opened o h)

  walk_refused :
      (r : ModelRouter) (link : ℕ) (ref : String) (rest : List String)
      → IsBroken r (clock link 0) ref
      → walk r link (ref ∷ rest) ≡ walk r (suc link) rest
  unfolding complete_chain
  walk_refused r link ref rest (name, model, b, e, l, open_then) =
      let refused = call_link_refused r link name model b l open_then in
      rw (e, complete_chain)
        (rw refused (
          ap (λ k. walk k (suc link) rest)
            (ap (set_breaker r name) (ap (λ d. d.breaker) refused)
              ∙ ap (λ d. record r { breakers = d }) (insert_same name b r.breakers l))))

  walk_unresolved :
      (r : ModelRouter) (link : ℕ) (ref : String) (rest : List String)
      → resolve r ref ≡ none
      → walk r link (ref ∷ rest) ≡ walk r (suc link) rest
  unfolding complete_chain
  walk_unresolved r link ref rest e = rw (e, complete_chain)

  walk-Skipped :
      (r : ModelRouter) (link : ℕ) (refs rest : List String)
      → Skipped r link refs
      → walk r link (refs ++ rest) ≡ walk r (length refs + link) rest
  walk-Skipped r link [] rest h = ap (λ n. walk r n rest) (omega arith)
  walk-Skipped r link (ref ∷ refs) rest (inl e, t) =
      walk_unresolved r link ref (refs ++ rest) e
      ∙ walk-Skipped r (suc link) refs rest t
      ∙ ap (λ n. walk r n rest) (omega arith)
  walk-Skipped r link (ref ∷ refs) rest (inr e, t) =
      walk_refused r link ref (refs ++ rest) e
      ∙ walk-Skipped r (suc link) refs rest t
      ∙ ap (λ n. walk r n rest) (omega arith)

  walk_answers :
      (r : ModelRouter) (link : ℕ) (ref : String) (rest : List String) (name model : String) (a : A)
      → resolve r ref ≡ some (name, model)
      → (call_link uniform operation clock r link (name, model)).result ≡ returned a
      → (walk r link (ref ∷ rest)).0 ≡ some a
  unfolding complete_chain
  walk_answers r link ref rest name model a e c = rw (e, complete_chain) (rw c refl)

  -- Let the chain of an alias begin with links that do not resolve or whose circuits are open, and
  -- let the call of the link behind them return `a`. Then `complete` returns `a`, the skipped
  -- providers are not called, and their breakers are as before.
  pub complete-Skipped :
      (r : ModelRouter) (ref_or_alias ref : String) (before rest : List String)
      (name model : String) (a : A)
      → chain r ref_or_alias ≡ before ++ ref ∷ rest
      → Skipped r 0 before
      → resolve r ref ≡ some (name, model)
      → (call_link uniform operation clock r (length before + 0) (name, model)).result ≡ returned a
      → ((complete uniform operation clock r ref_or_alias).0 ≡ some a)
        × (complete uniform operation clock r ref_or_alias
            ≡ walk r (length before + 0) (ref ∷ rest))
  unfolding complete
  complete-Skipped r alias ref before rest name model a c skipped e answers =
      let reach = walk-Skipped r 0 before (ref ∷ rest) skipped in
      (
        rw (c, complete)
            (rw reach (walk_answers r (length before + 0) ref rest name model a e answers)),
        rw (c, complete) reach,
      )
