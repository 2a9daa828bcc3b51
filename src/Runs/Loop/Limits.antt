-- ===== src/Runs/Loop/Limits.antt =====
-- What every claim of a run of src/hoursx/agents.py keeps: the step limit, the numbering of the
-- recorded steps, and the account of turns and tokens.
use hours_x.Prelude.{
  ℕ, suc, ◌+◌, ◌≤◌, ◌<◌, List, [], ◌∷◌, ◌++◌, Bool, length, length-append, ◌≡◌, max, refl, arith,
}
use hours_x.Runs.Loop.{
  ToolCall, ChatMessage, Usage, RunStep, StepKind, StepDetail, turn, Driver, Snap, tool_step,
  model_step, no_usage, record_step, after_turn, claim_snap, execute_run, resume_run, add_usage,
}
use hours_x.Runs.Loop.Keeps.{last_snap, claimed-Keeps}

-- Steps in the order in which they were recorded, numbered from 0.
abbrev pub NumberedFrom : ℕ → List RunStep → Type 0
NumberedFrom n [] = Unit
NumberedFrom n (r ∷ rs) = (r.index ≡ n) × NumberedFrom (suc n) rs

-- The row that `_record_step` adds.
abbrev made : Snap → StepKind → StepDetail → Usage → RunStep
made s kind detail usage = record {
  index = s.step_seq;
  kind = kind;
  detail = detail;
  usage = usage;
}

abbrev pub count_model : List RunStep → ℕ
count_model [] = 0
count_model (r ∷ rs) = (elim r.kind [ model_step ↦ 1 | tool_step ↦ 0 ]) + count_model rs

abbrev pub total_usage : List RunStep → Usage
total_usage [] = no_usage
total_usage (r ∷ rs) = add_usage r.usage (total_usage rs)

NumberedFrom-snoc :
    (n : ℕ) (rs : List RunStep) (r : RunStep)
    → NumberedFrom n rs
    → r.index ≡ n + length rs
    → NumberedFrom n (rs ++ r ∷ [])
NumberedFrom-snoc n [] r h e = (omega (arith, e), tt)
NumberedFrom-snoc n (x ∷ xs) r h e = (h.0, NumberedFrom-snoc (suc n) xs r h.1 (omega (arith, e)))

count_model-snoc :
    (rs : List RunStep) (r : RunStep)
    → count_model (rs ++ r ∷ []) ≡ count_model rs + count_model (r ∷ [])
count_model-snoc [] r = omega arith
count_model-snoc (x ∷ xs) r = omega (arith, count_model-snoc xs r)

total-snoc_input :
    (rs : List RunStep) (r : RunStep)
    → (total_usage (rs ++ r ∷ [])).input_tokens
      ≡ (total_usage rs).input_tokens + r.usage.input_tokens
total-snoc_input [] r = omega arith
total-snoc_input (x ∷ xs) r = omega (arith, total-snoc_input xs r)

total-snoc_output :
    (rs : List RunStep) (r : RunStep)
    → (total_usage (rs ++ r ∷ [])).output_tokens
      ≡ (total_usage rs).output_tokens + r.usage.output_tokens
total-snoc_output [] r = omega arith
total-snoc_output (x ∷ xs) r = omega (arith, total-snoc_output xs r)

abbrev pub TurnsWithin : ℕ → Snap → Type 0
TurnsWithin limit s = (s.step_count ≡ count_model s.steps) × (s.step_count ≤ limit)

module _ (d : Driver) (t : List ChatMessage) (count : ℕ) (steps : List RunStep) where
  abbrev InOrder : Snap → Type 0
  InOrder s = NumberedFrom 0 s.steps × (s.step_seq ≡ length s.steps)

  record-InOrder :
      (s : Snap) (x : StepDetail) → InOrder s → InOrder (record_step s tool_step x no_usage)
  unfolding record_step
  record-InOrder s x i = (
    NumberedFrom-snoc 0 s.steps _ i.0 (omega (arith, i.1)),
    omega (arith, i.1, length-append s.steps (made s tool_step x no_usage ∷ [])),
  )

  turn-InOrder : (s : Snap) (u : Usage) → InOrder s → InOrder (after_turn s u)
  unfolding after_turn record_step
  turn-InOrder s u i = (
    NumberedFrom-snoc 0 s.steps _ i.0 (omega (arith, i.1)),
    omega (arith, i.1, length-append s.steps (made s model_step turn u ∷ [])),
  )

  -- When the recorded steps of a run are numbered from zero without a gap or a repetition, so they
  -- are after every claim of the run, started or resumed.
  pub claimed-InOrder :
      NumberedFrom 0 steps
      → NumberedFrom 0 (last_snap (execute_run d t count steps)).steps
        × ((approved : Bool) (pending : List ToolCall)
            → NumberedFrom 0 (last_snap (resume_run d approved t pending count steps)).steps)
  unfolding claim_snap
  claimed-InOrder h =
      let kept =
        claimed-Keeps d InOrder record-InOrder (λ s u lt i. turn-InOrder s u i) t count steps
          (h, refl) in
      (kept.0.0, λ approved pending. (kept.1 approved pending).0)

  -- The steps recorded by one claim beyond those that it found, counted by turns of the model.
  abbrev Counted : Snap → Type 0
  Counted s =
      (s.step_count ≤ max count d.max_steps)
      × (s.step_count + count_model steps ≡ count + count_model s.steps)

  record-Counted :
      (s : Snap) (x : StepDetail) → Counted s → Counted (record_step s tool_step x no_usage)
  unfolding record_step
  record-Counted s x i =
      (i.0, omega (arith, i.1, count_model-snoc s.steps (made s tool_step x no_usage)))

  turn-Counted :
      (s : Snap) (u : Usage) → s.step_count < d.max_steps → Counted s → Counted (after_turn s u)
  unfolding after_turn record_step
  turn-Counted s u lt i =
      (omega (arith, lt), omega (arith, i.1, count_model-snoc s.steps (made s model_step turn u)))

  within :
      (s : Snap)
      → count ≡ count_model steps
      → count ≤ d.max_steps
      → Counted s
      → TurnsWithin d.max_steps s
  within s e h i = (omega (arith, e, i.1), omega (arith, h, i.0))

  -- When a run is claimed with a step count that is its recorded turns of the model, none of them lost
  -- to a claim that was cut short before it wrote its count, and within the limit, so it is where the
  -- claim ends: the model has answered the run at most `max_steps` times in all.
  pub claimed-Counted :
      count ≡ count_model steps
      → count ≤ d.max_steps
      → TurnsWithin d.max_steps (last_snap (execute_run d t count steps))
        × ((approved : Bool) (pending : List ToolCall)
            → TurnsWithin d.max_steps (last_snap (resume_run d approved t pending count steps)))
  unfolding claim_snap
  claimed-Counted e h =
      let kept =
        claimed-Keeps d Counted record-Counted turn-Counted t count steps (omega arith, refl) in
      (
        within (last_snap (execute_run d t count steps)) e h kept.0,
        λ approved pending.
            within (last_snap (resume_run d approved t pending count steps)) e h
              (kept.1 approved pending),
      )

  abbrev pub Paid : Snap → Type 0
  Paid s =
      (s.tokens.input_tokens + (total_usage steps).input_tokens
        ≡ (total_usage s.steps).input_tokens)
      × (s.tokens.output_tokens + (total_usage steps).output_tokens
          ≡ (total_usage s.steps).output_tokens)

  record-Paid : (s : Snap) (x : StepDetail) → Paid s → Paid (record_step s tool_step x no_usage)
  unfolding record_step
  record-Paid s x i = (
    omega (arith, i.0, total-snoc_input s.steps (made s tool_step x no_usage)),
    omega (arith, i.1, total-snoc_output s.steps (made s tool_step x no_usage)),
  )

  turn-Paid : (s : Snap) (u : Usage) → Paid s → Paid (after_turn s u)
  unfolding after_turn record_step
  turn-Paid s u i = (
    omega (arith, i.0, total-snoc_input s.steps (made s model_step turn u)),
    omega (arith, i.1, total-snoc_output s.steps (made s model_step turn u)),
  )

  -- The tokens that a claim of a run ends with are those of the turns since that claim: what the steps
  -- recorded before it have used is not among them.
  pub claimed-Paid :
      Paid (last_snap (execute_run d t count steps))
      × ((approved : Bool) (pending : List ToolCall)
          → Paid (last_snap (resume_run d approved t pending count steps)))
  unfolding claim_snap
  claimed-Paid =
      claimed-Keeps d Paid record-Paid (λ s u lt i. turn-Paid s u i) t count steps
        (omega arith, omega arith)
