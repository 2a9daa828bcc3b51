-- ===== src/Runs/Loop/Ends.antt =====
-- A run of src/hoursx/agents.py whose every pause is approved is paused only finitely often, and ends
-- recorded.
use hours_x.Prelude.{
  ℕ, zero, suc, ◌+◌, ◌≤◌, List, [], ◌∷◌, Bool, true, false, length, length-append, ◌≡◌, refl, sym,
  ap, ◌∙◌, arith, subst, map,
}
use hours_x.Runs.Loop.{
  ToolCall, ChatMessage, RunStep, StepDetail, turn, called, decided, Turn, Driver, Snap, Outcome,
  CallsEnd, turn_raises, answered, tool_step, model_step, no_usage, all_done, gate_hit, calls_raise,
  finished, parked, left_running, record_step, after_turn, after_calls, take_turn, begin_round,
  model_loop, rounds_left, loop, claim_snap, execute_run,
}
use hours_x.Runs.Loop.Keeps.{last_snap, loop-Keeps}
use hours_x.Runs.Loop.Pause.{Answers, Transparent, ungated, past_pause, loop-past}
use hours_x.Runs.Loop.Tokens.{forget, blur}
use hours_x.Runs.Loop.Resume.{
  Sequenced, answered_with, called_step, decided_step, resumed, ungated_goes_on, approve,
  approve_all, approve-past, start-Sequenced,
}

-- Finished for good.
abbrev pub is_finished : Outcome → Bool
is_finished (finished e t s) = true
is_finished (parked t call rest s) = false
is_finished (left_running t s) = false

-- Finished or waiting for a human: the row is not left running.
abbrev pub is_recorded : Outcome → Bool
is_recorded (finished e t s) = true
is_recorded (parked t call rest s) = true
is_recorded (left_running t s) = false

module _ (d : Driver) where
  abbrev Records : (List ChatMessage → Snap → Outcome) → Type 0
  Records go = (t : List ChatMessage) (s : Snap) → is_recorded (go t s) ≡ true

  after_calls-Records :
      (go : List ChatMessage → Snap → Outcome) (c : CallsEnd)
      → Records go
      → is_recorded (after_calls go c) ≡ true
  unfolding after_calls
  after_calls-Records go (all_done t s) g = g t s
  after_calls-Records go (gate_hit t call rest s) g = refl
  after_calls-Records go (calls_raise t s) g = refl

  take_turn-Records :
      (go : List ChatMessage → Snap → Outcome) (t : List ChatMessage) (s : Snap) (o : Turn)
      → Records go
      → is_recorded (take_turn d go t s o) ≡ true
  unfolding take_turn
  take_turn-Records go t s turn_raises g = refl
  take_turn-Records go t s (answered content [] usage) g = refl
  take_turn-Records go t s (answered content (call ∷ calls) usage) g = after_calls-Records go _ g

  begin_round-Records :
      (go : List ChatMessage → Snap → Outcome) (t : List ChatMessage) (s : Snap) (b : Bool)
      → Records go
      → is_recorded (begin_round d go t s b) ≡ true
  unfolding begin_round
  begin_round-Records go t s true g = refl
  begin_round-Records go t s false g = take_turn-Records go t s (d.model t) g

  model_loop-Records : (n : ℕ) → Records (λ t s. model_loop d n t s)
  unfolding model_loop
  model_loop-Records zero t s = refl
  model_loop-Records (suc n) t s =
      begin_round-Records (λ t' s'. model_loop d n t' s') t s (d.cancel_requested s.step_count)
        (model_loop-Records n)

  pub loop-Records :
      (pending : List ToolCall) (t : List ChatMessage) (s : Snap)
      → is_recorded (loop d pending t s) ≡ true
  unfolding loop
  loop-Records pending t s =
      after_calls-Records (λ t' s'. model_loop d (rounds_left d s') t' s') _
        (λ t' s'. model_loop-Records (rounds_left d s') t' s')

  -- Steps are never taken back.
  loop_grows :
      (pending : List ToolCall) (t : List ChatMessage) (s : Snap) (k : ℕ)
      → k ≤ length s.steps
      → k ≤ length (last_snap (loop d pending t s)).steps
  unfolding record_step after_turn
  loop_grows pending t s k =
      loop-Keeps d (λ s. k ≤ length s.steps)
        (λ s x h. omega (
          arith,
          h,
          length-append s.steps
              (record { index = s.step_seq; kind = tool_step; detail = x; usage = no_usage } ∷ []),
        ))
        (λ s u lt h. omega (
          arith,
          h,
          length-append s.steps
              (record { index = s.step_seq; kind = model_step; detail = turn; usage = u } ∷ []),
        ))
        pending t s

-- The number of recorded steps that an outcome ends with.
abbrev recorded_steps : Outcome → ℕ
recorded_steps o = length (last_snap o).steps

length-blur : (rs : List RunStep) → length (map blur rs) ≡ length rs
length-blur [] = refl
length-blur (r ∷ rs) = ap suc (length-blur rs)

forget-recorded_steps : (o : Outcome) → recorded_steps (forget o) ≡ recorded_steps o
forget-recorded_steps (finished e t s) = length-blur s.steps
forget-recorded_steps (parked t call rest s) = length-blur s.steps
forget-recorded_steps (left_running t s) = length-blur s.steps

module _ (d : Driver) (answers : Answers d) (clear : Transparent d) where
  -- The steps that the run ends with, once its calls need no approval.
  abbrev goal : Outcome → ℕ
  goal o = recorded_steps (past_pause d o)

  approve-goal : (o : Outcome) → Sequenced d (last_snap o) → goal (approve d o) ≡ goal o
  approve-goal o h =
      sym (forget-recorded_steps (past_pause d (approve d o)))
      ∙ ap recorded_steps (approve-past d answers clear o h).0
      ∙ forget-recorded_steps (past_pause d o)

  recorded_grows :
      (x : StepDetail) (s : Snap)
      → suc (length s.steps) ≤ length (record_step s tool_step x no_usage).steps
  unfolding record_step
  recorded_grows x s = omega (
    arith,
    length-append s.steps
        (record { index = s.step_seq; kind = tool_step; detail = x; usage = no_usage } ∷ []),
  )

  goal_above :
      (t : List ChatMessage) (call : ToolCall) (rest : List ToolCall) (s : Snap)
      → suc (length s.steps) ≤ goal (parked t call rest s)
  unfolding past_pause
  goal_above t call rest s =
      let (x, a) = answers t call in
      subst (λ o. suc (length s.steps) ≤ recorded_steps o)
        (sym (ungated_goes_on d t call rest s x a))
        (loop_grows (ungated d) rest (answered_with d t call x) (called_step d call s) _
          (recorded_grows (called call) s))

  -- Approving records a step more, and the row is not left running.
  approve_goes_on :
      (t : List ChatMessage) (call : ToolCall) (rest : List ToolCall) (s : Snap)
      → (suc (length s.steps) ≤ recorded_steps (approve d (parked t call rest s)))
        × (is_recorded (approve d (parked t call rest s)) ≡ true)
  unfolding approve claim_snap
  approve_goes_on t call rest s =
      let (x, a) = answers t call in
      let loaded = claim_snap s.step_count s.steps in
      subst (λ o. (suc (length s.steps) ≤ recorded_steps o) × (is_recorded o ≡ true))
        (sym (resumed d t call rest s.step_count s.steps x a))
        (
          loop_grows d rest (answered_with d t call x) (decided_step d call loaded) _
              (recorded_grows (decided call true) loaded),
          loop-Records d rest (answered_with d t call x) (decided_step d call loaded),
        )

  finishes :
      (n : ℕ) (o : Outcome)
      → Sequenced d (last_snap o)
      → is_recorded o ≡ true
      → goal o ≤ recorded_steps o + n
      → is_finished (approve_all d n o) ≡ true
  unfolding approve_all approve past_pause
  finishes zero (finished e t s) q r h = refl
  finishes zero (parked t call rest s) q r h = ground (arith, h, goal_above t call rest s)
  finishes (suc n) (finished e t s) q r h = finishes n (finished e t s) q r (omega arith)
  finishes (suc n) (parked t call rest s) q r h =
      let (more, ok) = approve_goes_on t call rest s in
      finishes n (approve d (parked t call rest s))
        (approve-past d answers clear (parked t call rest s) q).1 ok
        (omega (arith, h, more, approve-goal (parked t call rest s) q))
  finishes n (left_running t s) q r h = cc

  -- Let every approved call answer, and let the gate change nothing but whether a call waits. A run whose
  -- pauses are all approved finishes, after no more pauses than the run in which no call needs approval
  -- has recorded steps.
  pub approve_all-Finishes :
      (t : List ChatMessage) (count : ℕ) (steps : List RunStep)
      → is_finished (
          approve_all d
            (length (last_snap (execute_run (ungated d) t count steps)).steps)
            (execute_run d t count steps))
        ≡ true
  unfolding execute_run
  approve_all-Finishes t count steps =
      finishes _ (loop d [] t (claim_snap count steps)) (start-Sequenced d t count steps)
        (loop-Records d [] t (claim_snap count steps))
        (omega (arith, ap recorded_steps (loop-past d answers clear [] t (claim_snap count steps))))
