-- ===== src/Runs/Loop/Keeps.antt =====
-- Statements on snapshots that the loop of src/hoursx/agents.py keeps.
use hours_x.Prelude.{ℕ, zero, suc, ◌-◌, ◌<◌, List, [], ◌∷◌, Bool, true, false, ◌≡◌, refl, arith}
use hours_x.Runs.Loop.{
  ToolCall, ChatMessage, Usage, Turn, ToolOutcome, RunStep, StepDetail, Driver, Snap, Outcome,
  CallsEnd, turn_raises, answered, payload, approval_pending, tool_raises, tool_step, no_usage,
  all_done, gate_hit, calls_raise, finished, parked, left_running, record_step, after_turn,
  after_calls, after_tool, take_turn, begin_round, run_calls, model_loop, rounds_left, loop,
  claim_snap, execute_run, resume_run, resume_after,
}

-- The snapshot that an outcome ends with.
abbrev pub last_snap : Outcome → Snap
last_snap (finished e t s) = s
last_snap (parked t call rest s) = s
last_snap (left_running t s) = s

abbrev calls_snap : CallsEnd → Snap
calls_snap (all_done t s) = s
calls_snap (gate_hit t call rest s) = s
calls_snap (calls_raise t s) = s

-- A statement on snapshots that recording a tool call and taking one more turn keep is kept by the
-- loop.
module _ (d : Driver) (I : Snap → Type 0)
    (tool : (s : Snap) (x : StepDetail) → I s → I (record_step s tool_step x no_usage))
    (turn : (s : Snap) (u : Usage) → s.step_count < d.max_steps → I s → I (after_turn s u)) where
  abbrev Kept : ℕ → Snap → Type 0
  Kept n s = (n ≡ d.max_steps - s.step_count) × I s

  step-Kept :
      (n : ℕ) (s : Snap) (x : StepDetail) → Kept n s → Kept n (record_step s tool_step x no_usage)
  unfolding record_step
  step-Kept n s x k = (k.0, tool s x k.1)

  after_tool-Keeps :
      (n : ℕ) (go : List ChatMessage → Snap → CallsEnd) (call : ToolCall) (calls : List ToolCall)
      (t : List ChatMessage) (s : Snap) (o : ToolOutcome)
      → ((t' : List ChatMessage) (s' : Snap) → Kept n s' → Kept n (calls_snap (go t' s')))
      → Kept n s
      → Kept n (calls_snap (after_tool go call calls t s o))
  unfolding after_tool
  after_tool-Keeps n go call calls t s (payload content) g k = g _ _ (step-Kept n s _ k)
  after_tool-Keeps n go call calls t s approval_pending g k = k
  after_tool-Keeps n go call calls t s tool_raises g k = k

  run_calls-Keeps :
      (n : ℕ) (calls : List ToolCall) (t : List ChatMessage) (s : Snap)
      → Kept n s
      → Kept n (calls_snap (run_calls d calls t s))
  unfolding run_calls
  run_calls-Keeps n [] t s k = k
  run_calls-Keeps n (call ∷ calls) t s k =
      after_tool-Keeps n (λ t' s'. run_calls d calls t' s') call calls t s (d.run_tool t call false)
        (run_calls-Keeps n calls) k

  -- The rounds that are left always add up.
  Going : (ℕ) → (List ChatMessage → Snap → Outcome) → Type 0
  Going n go = (t : List ChatMessage) (s : Snap) → Kept n s → I (last_snap (go t s))

  after_calls-Keeps :
      (n : ℕ) (go : List ChatMessage → Snap → Outcome) (c : CallsEnd)
      → Going n go
      → Kept n (calls_snap c)
      → I (last_snap (after_calls go c))
  unfolding after_calls Going
  after_calls-Keeps n go (all_done t s) g k = g t s k
  after_calls-Keeps n go (gate_hit t call rest s) g k = k.1
  after_calls-Keeps n go (calls_raise t s) g k = k.1

  after_turn-Keeps : (n : ℕ) (s : Snap) (u : Usage) → Kept (suc n) s → Kept n (after_turn s u)
  unfolding after_turn record_step
  after_turn-Keeps n s u k = (omega (arith, k.0), turn s u (omega (arith, k.0)) k.1)

  take_turn-Keeps :
      (n : ℕ) (go : List ChatMessage → Snap → Outcome) (t : List ChatMessage) (s : Snap) (o : Turn)
      → Going n go
      → Kept (suc n) s
      → I (last_snap (take_turn d go t s o))
  unfolding take_turn
  take_turn-Keeps n go t s turn_raises g k = k.1
  take_turn-Keeps n go t s (answered content [] usage) g k = (after_turn-Keeps n s usage k).1
  take_turn-Keeps n go t s (answered content (call ∷ calls) usage) g k =
      after_calls-Keeps n go _ g
        (run_calls-Keeps n (call ∷ calls) _ (after_turn s usage) (after_turn-Keeps n s usage k))

  begin_round-Keeps :
      (n : ℕ) (go : List ChatMessage → Snap → Outcome) (t : List ChatMessage) (s : Snap) (b : Bool)
      → Going n go
      → Kept (suc n) s
      → I (last_snap (begin_round d go t s b))
  unfolding begin_round
  begin_round-Keeps n go t s true g k = k.1
  begin_round-Keeps n go t s false g k = take_turn-Keeps n go t s (d.model t) g k

  model_loop-Keeps : (n : ℕ) → Going n (model_loop d n)
  unfolding model_loop Going
  model_loop-Keeps zero t s k = k.1
  model_loop-Keeps (suc n) t s k =
      begin_round-Keeps n (λ t' s'. model_loop d n t' s') t s (d.cancel_requested s.step_count)
        (model_loop-Keeps n) k

  pub loop-Keeps :
      (pending : List ToolCall) (t : List ChatMessage) (s : Snap)
      → I s
      → I (last_snap (loop d pending t s))
  unfolding loop rounds_left Going
  loop-Keeps pending t s i =
      after_calls-Keeps (rounds_left d s) (λ t' s'. model_loop d (rounds_left d s') t' s') _
        (λ t' s' k. model_loop-Keeps (rounds_left d s') t' s' (refl, k.1))
        (run_calls-Keeps (rounds_left d s) pending t s (refl, i))

  resume_after-Keeps :
      (call : ToolCall) (rest : List ToolCall) (t : List ChatMessage) (s : Snap) (o : ToolOutcome)
      → I s
      → I (last_snap (resume_after d call rest t s o))
  unfolding resume_after
  resume_after-Keeps call rest t s (payload content) i = loop-Keeps rest _ _ (tool s _ i)
  resume_after-Keeps call rest t s approval_pending i = i
  resume_after-Keeps call rest t s tool_raises i = i

  pub resume-Keeps :
      (approved : Bool) (t : List ChatMessage) (pending : List ToolCall) (count : ℕ)
      (steps : List RunStep)
      → I (claim_snap count steps)
      → I (last_snap (resume_run d approved t pending count steps))
  unfolding resume_run
  resume-Keeps approved t [] count steps i = i
  resume-Keeps true t (call ∷ rest) count steps i =
      resume_after-Keeps call rest t (claim_snap count steps) (d.run_tool t call true) i
  resume-Keeps false t (call ∷ rest) count steps i = loop-Keeps rest _ _ (tool _ _ i)

  -- Both ways to go on with a run.
  pub claimed-Keeps :
      (t : List ChatMessage) (count : ℕ) (steps : List RunStep)
      → I (claim_snap count steps)
      → I (last_snap (execute_run d t count steps))
        × ((approved : Bool) (pending : List ToolCall)
            → I (last_snap (resume_run d approved t pending count steps)))
  unfolding execute_run
  claimed-Keeps t count steps i = (
    loop-Keeps [] t (claim_snap count steps) i,
    λ approved pending. resume-Keeps approved t pending count steps i,
  )
