-- ===== src/Providers/Sse/Run.antt =====
-- The variables after the loop of src/hoursx/providers, when the lines decode to events.
use hours_x.Prelude.{
  List, [], ◌∷◌, ◌++◌, Bool, Option, none, some, String, map, ◌≡◌, refl, sym, ap, ◌∙◌, Option-cases,
  inl, inr,
}
use hours_x.Json.{Value, ◌>>=◌}
use hours_x.Providers.Sse.{
  Line, skipped, last, broken, event, Yields, and_rest, on_line, run_lines, read_line,
}

-- The variables that a step leaves, and those that are left after all.
module _ {S : Type 0} (step : S → Value → Yields S) where
  abbrev pub states : List Value → S → Option S
  states [] s = some s
  states (v ∷ vs) s = (step s v).1 >>= states vs

  bind_assoc : (x : Option S) (f g : S → Option S) → (x >>= f) >>= g ≡ x >>= λ s. f s >>= g
  bind_assoc none f g = refl
  bind_assoc (some s) f g = refl

  bind_ap : (x : Option S) (f g : S → Option S) → ((s : S) → f s ≡ g s) → x >>= f ≡ x >>= g
  bind_ap none f g h = refl
  bind_ap (some s) f g h = h s

  pub states-append :
      (vs ws : List Value) (s : S) → states (vs ++ ws) s ≡ (states vs s >>= states ws)
  states-append [] ws s = refl
  states-append (v ∷ vs) ws s =
      bind_ap (step s v).1 (states (vs ++ ws)) (λ t. states vs t >>= states ws)
        (states-append vs ws)
      ∙ sym (bind_assoc (step s v).1 (states vs) (states ws))

  after_rest :
      {R : Type 0} (y : Yields S) (rest : S → Yields R)
      → (and_rest y rest).1 ≡ (y.1 >>= λ s. (rest s).1)
  after_rest (ds, none) rest = refl
  after_rest (ds, some s) rest = refl

-- The events of the lines up to the last, unless one is broken.
abbrev pub heard : List Line → Option (List Value)
heard [] = some []
heard (skipped ∷ ls) = heard ls
heard (last ∷ ls) = some []
heard (broken ∷ ls) = none
heard (event v ∷ ls) = heard ls >>= λ vs. some (v ∷ vs)

module _ (loads : String → Option Value) (stops : Bool) {S : Type 0}
    (step : S → Value → Yields S) where
  abbrev Runs : List Line → (S → Yields S) → Type 0
  Runs ls rest = (vs : List Value) → heard ls ≡ some vs → (s : S) → (rest s).1 ≡ states step vs s

  event-Runs :
      (v : Value) (ls : List Line) (rest : S → Yields S) (vs ws : List Value) (s : S)
      → Runs ls rest
      → heard ls ≡ some ws
      → heard (event v ∷ ls) ≡ some vs
      → (and_rest (step s v) rest).1 ≡ states step vs s
  event-Runs v ls rest vs ws s k e h =
      let same : v ∷ ws ≡ vs = cc in
      after_rest step (step s v) rest
      ∙ bind_ap step (step s v).1 (λ t. (rest t).1) (states step ws) (k ws e)
      ∙ ap (λ us. states step us s) same

  line-Runs :
      (line : Line) (ls : List Line) (rest : S → Yields S)
      → Runs ls rest
      → Runs (line ∷ ls) (λ s. on_line loads stops step line s rest)
  line-Runs skipped ls rest k vs h s = k vs h s
  line-Runs last ls rest k vs h s = let same : [] ≡ vs = cc in ap (λ us. states step us s) same
  line-Runs broken ls rest k vs h s = cc
  line-Runs (event v) ls rest k vs h s = elim (Option-cases (heard ls)) [
    | inl e ↦ cc
    | inr (ws, e) ↦ event-Runs v ls rest vs ws s k e h
  ]

  pub run_lines-states :
      (lines : List String)
      → Runs (map (read_line loads stops) lines) (run_lines loads stops step lines)
  unfolding run_lines
  run_lines-states [] vs h s = let same : [] ≡ vs = cc in ap (λ us. states step us s) same
  run_lines-states (line ∷ lines) vs h s =
      line-Runs (read_line loads stops line) (map (read_line loads stops) lines)
        (run_lines loads stops step lines) (run_lines-states lines) vs h s
