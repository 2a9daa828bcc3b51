-- ===== src/Runs/Loop/Resume.antt =====
-- A run of src/hoursx/agents.py that is paused at the approval gate, any number of times, and each time
-- approved, against the run that is never paused.
use hours_x.Prelude.{
  ℕ, zero, suc, ◌+◌, List, [], ◌∷◌, ◌++◌, true, String, length, length-append, ◌≡◌, refl, sym, ap,
  ◌∙◌, arith, subst,
}
use hours_x.Runs.Loop.{
  ToolCall, ChatMessage, RunStep, Driver, Snap, Ending, Outcome, payload, tool_step, model_step,
  turn, called, decided, no_usage, finished, parked, left_running, record_step, after_turn, loop,
  execute_run, claim_snap, tool_message, resume_run, resume_after, run_calls, after_tool,
}
use hours_x.Runs.Loop.Keeps.{last_snap, loop-Keeps}
use hours_x.Runs.Loop.Pause.{Answers, Transparent, ungated, past_pause, loop-past}
use hours_x.Runs.Loop.Tokens.{drop_tokens, forget, loop-drop, blur-snoc}

module _ (d : Driver) where
  -- A run that waits is approved and resumed; another stays as it is.
  unfoldable pub approve : Outcome → Outcome
  approve (finished e t s) = finished e t s
  approve (parked t call rest s) = resume_run d true t (call ∷ rest) s.step_count s.steps
  approve (left_running t s) = left_running t s

  -- The next `n` pauses of a run are approved.
  unfoldable pub approve_all : ℕ → Outcome → Outcome
  approve_all zero o = o
  approve_all (suc n) o = approve_all n (approve o)

  -- The number of recorded steps is the next index.
  abbrev pub Sequenced : Snap → Type 0
  Sequenced s = s.step_seq ≡ length s.steps

  loop-Sequenced :
      (pending : List ToolCall) (t : List ChatMessage) (s : Snap)
      → Sequenced s
      → Sequenced (last_snap (loop d pending t s))
  unfolding record_step after_turn
  loop-Sequenced =
      loop-Keeps d Sequenced
        (λ s x h. omega (
          arith,
          h,
          length-append s.steps
              (record { index = s.step_seq; kind = tool_step; detail = x; usage = no_usage } ∷ []),
        ))
        (λ s u lt h. omega (
          arith,
          h,
          length-append s.steps
              (record { index = s.step_seq; kind = model_step; detail = turn; usage = u } ∷ []),
        ))

  -- What a claim loads of a sequenced snapshot is all of it but the tokens.
  claimed_snap :
      (s : Snap) → Sequenced s → claim_snap s.step_count s.steps ≡ record s { tokens = no_usage }
  unfolding claim_snap
  claimed_snap s h = ap (λ n. record s { step_seq = n; tokens = no_usage }) (sym h)

  abbrev pub answered_with : List ChatMessage → ToolCall → String → List ChatMessage
  answered_with t call x = t ++ tool_message call x ∷ []

  -- The step of an approved call, and that of a call which needed no approval.
  abbrev pub decided_step : ToolCall → Snap → Snap
  decided_step call s = record_step s tool_step (decided call true) no_usage

  abbrev pub called_step : ToolCall → Snap → Snap
  called_step call s = record_step s tool_step (called call) no_usage

  pub resumed :
      (t : List ChatMessage) (call : ToolCall) (rest : List ToolCall) (count : ℕ)
      (steps : List RunStep) (x : String)
      → d.run_tool t call true ≡ payload x
      → resume_run d true t (call ∷ rest) count steps
        ≡ loop d rest (answered_with t call x) (decided_step call (claim_snap count steps))
  unfolding resume_run resume_after
  resumed t call rest count steps x a = rw a

  pub ungated_goes_on :
      (t : List ChatMessage) (call : ToolCall) (rest : List ToolCall) (s : Snap) (x : String)
      → d.run_tool t call true ≡ payload x
      → loop (ungated d) (call ∷ rest) t s
        ≡ loop (ungated d) rest (answered_with t call x) (called_step call s)
  unfolding loop run_calls after_tool
  ungated_goes_on t call rest s x a = rw a

  decided-drop :
      (call : ToolCall) (s : Snap)
      → drop_tokens (decided_step call (record s { tokens = no_usage }))
        ≡ drop_tokens (called_step call s)
  unfolding record_step
  decided-drop call s =
      ap (λ x. record s { step_seq = s.step_seq + 1; tokens = no_usage; steps = x })
        (blur-snoc s.steps _ ∙ sym (blur-snoc s.steps _))

  pub start-Sequenced :
      (t : List ChatMessage) (count : ℕ) (steps : List RunStep)
      → Sequenced (last_snap (loop d [] t (claim_snap count steps)))
  unfolding claim_snap
  start-Sequenced t count steps = loop-Sequenced [] t (claim_snap count steps) refl

  module _ (answers : Answers d) (clear : Transparent d) where
    resume-past :
        (t : List ChatMessage) (call : ToolCall) (rest : List ToolCall) (s : Snap)
        → Sequenced s
        → forget (past_pause d (resume_run d true t (call ∷ rest) s.step_count s.steps))
          ≡ forget (past_pause d (parked t call rest s))
    unfolding past_pause
    resume-past t call rest s h =
        let (x, a) = answers t call in
        let t' = answered_with t call x in
        ap (λ o. forget (past_pause d o)) (resumed t call rest s.step_count s.steps x a)
        ∙ ap forget (
            sym (
              loop-past d answers clear rest t'
                (decided_step call (claim_snap s.step_count s.steps))))
        ∙ ap (λ c. forget (loop (ungated d) rest t' (decided_step call c))) (claimed_snap s h)
        ∙ sym (loop-drop (ungated d) rest t' (decided_step call (record s { tokens = no_usage })))
        ∙ ap (λ c. forget (loop (ungated d) rest t' c)) (decided-drop call s)
        ∙ loop-drop (ungated d) rest t' (called_step call s)
        ∙ ap forget (sym (ungated_goes_on t call rest s x a))

    resume-Sequenced :
        (t : List ChatMessage) (call : ToolCall) (rest : List ToolCall) (count : ℕ)
        (steps : List RunStep)
        → Sequenced (last_snap (resume_run d true t (call ∷ rest) count steps))
    unfolding claim_snap record_step
    resume-Sequenced t call rest count steps =
        let (x, a) = answers t call in
        subst (λ o. Sequenced (last_snap o)) (sym (resumed t call rest count steps x a))
          (loop-Sequenced rest (answered_with t call x) (decided_step call (claim_snap count steps))
            (omega (
              arith,
              length-append steps (
                  record {
                    index = length steps;
                    kind = tool_step;
                    detail = decided call true;
                    usage = no_usage;
                  }
                  ∷ []),
            )))

    pub approve-past :
        (o : Outcome)
        → Sequenced (last_snap o)
        → (forget (past_pause d (approve o)) ≡ forget (past_pause d o))
          × Sequenced (last_snap (approve o))
    unfolding approve
    approve-past (finished e t s) h = (refl, h)
    approve-past (parked t call rest s) h =
        (resume-past t call rest s h, resume-Sequenced t call rest s.step_count s.steps)
    approve-past (left_running t s) h = (refl, h)

    approve_all-past :
        (n : ℕ) (o : Outcome)
        → Sequenced (last_snap o)
        → forget (past_pause d (approve_all n o)) ≡ forget (past_pause d o)
    unfolding approve_all
    approve_all-past zero o h = refl
    approve_all-past (suc n) o h =
        let (same, seq) = approve-past o h in approve_all-past n (approve o) seq ∙ same

    -- Let every approved call answer, and let the gate change nothing but whether a call waits. When a
    -- run that is started, paused any number of times and each time approved has finished, it has the
    -- ending, the transcript and the step count of the run in which no call needs approval, and its
    -- recorded steps, in which a call that a human decided on counts as one that was called. Its token
    -- counts may differ.
    pub approve_all-Leads :
        (n : ℕ) (t t' : List ChatMessage) (count : ℕ) (steps : List RunStep) (e : Ending) (s : Snap)
        → approve_all n (execute_run d t count steps) ≡ finished e t' s
        → forget (execute_run (ungated d) t count steps) ≡ forget (finished e t' s)
    unfolding execute_run past_pause
    approve_all-Leads n t t' count steps e s h =
        ap forget (loop-past d answers clear [] t (claim_snap count steps))
        ∙ sym (
            approve_all-past n (loop d [] t (claim_snap count steps))
              (start-Sequenced t count steps))
        ∙ ap (λ o. forget (past_pause d o)) h
