-- ===== src/Runs/Loop.antt =====
-- The model and tools loop of src/hoursx/agents.py (`_loop`, `resume_run`). The model, the tool
-- executor and the cancellation flag are functions of the transcript and of the steps taken; events
-- and the clipping of recorded texts are left out.
pub mod Keeps
pub mod Limits
pub mod Pause
pub mod Tokens
pub mod Resume
pub mod Ends
use hours_x.Prelude.{
  ℕ, zero, suc, ◌+◌, ◌-◌, List, [], ◌∷◌, ◌++◌, Bool, true, false, Option, none, some, String,
  length, if◌then◌else◌,
}

pub record ToolCall : Type 0 where
  pub id : String
  pub name : String
  pub arguments : String

pub data ChatMessage : Type 0 where
  system user : String → ChatMessage
  assistant : String → List ToolCall → ChatMessage
  tool_result : String → String → ChatMessage

pub record Usage : Type 0 where
  pub input_tokens : ℕ
  pub output_tokens : ℕ

-- One streamed model call; without a result, or with an exception, it raises.
pub data Turn : Type 0 where
  answered : String → List ToolCall → Usage → Turn
  turn_raises : Turn

-- The executor returns a payload, signals `ApprovalPending`, or something else raises.
pub data ToolOutcome : Type 0 where
  payload : String → ToolOutcome
  approval_pending : ToolOutcome
  tool_raises : ToolOutcome

pub data StepKind : Type 0 where
  model_step tool_step : StepKind

-- What is noted of a step: nothing of a turn, whose content and calls are in the transcript; a call;
-- or a call that waited, and whether a human approved it.
pub data StepDetail : Type 0 where
  turn : StepDetail
  called : ToolCall → StepDetail
  decided : ToolCall → Bool → StepDetail

-- A recorded step; its duration is left out.
pub record RunStep : Type 0 where
  pub index : ℕ
  pub kind : StepKind
  pub detail : StepDetail
  pub usage : Usage

-- What the loop is driven by.
pub record Driver : Type 0 where
  pub max_steps : ℕ
  pub model : List ChatMessage → Turn
  pub cancel_requested : ℕ → Bool
  -- The flag tells whether a human approved this very call.
  pub run_tool : List ChatMessage → ToolCall → Bool → ToolOutcome

-- The loop-local part of `RunSnap`, with the steps recorded so far.
pub record Snap : Type 0 where
  pub step_count : ℕ
  pub step_seq : ℕ
  pub tokens : Usage
  pub steps : List RunStep

abbrev pub no_usage : Usage
no_usage = record { input_tokens = 0; output_tokens = 0 }

pub data Ending : Type 0 where
  succeeded : String → Ending
  cancelled : Ending
  step_limit_reached : Ending
  runtime_error : Ending

-- How one claim of the run ends: recorded for good, parked with a checkpoint, or, when an exception
-- leaves `resume_run` outside the loop's `try`, with the row still running.
pub data Outcome : Type 0 where
  finished : Ending → List ChatMessage → Snap → Outcome
  parked : List ChatMessage → ToolCall → List ToolCall → Snap → Outcome
  left_running : List ChatMessage → Snap → Outcome

-- What `_claim` loads: the row's step count and the number of its recorded steps. The token counts
-- start at zero.
unfoldable pub claim_snap : ℕ → List RunStep → Snap
claim_snap step_count steps = record {
  step_count = step_count;
  step_seq = length steps;
  tokens = no_usage;
  steps = steps;
}

abbrev pub tool_message : ToolCall → String → ChatMessage
tool_message call content = tool_result call.id content

unfoldable pub record_step : Snap → StepKind → StepDetail → Usage → Snap
record_step s kind detail usage = record s {
  step_seq = s.step_seq + 1;
  steps =
      s.steps ++ record { index = s.step_seq; kind = kind; detail = detail; usage = usage } ∷ [];
}

abbrev pub add_usage : Usage → Usage → Usage
add_usage a b = record {
  input_tokens = a.input_tokens + b.input_tokens;
  output_tokens = a.output_tokens + b.output_tokens;
}

pub data CallsEnd : Type 0 where
  all_done : List ChatMessage → Snap → CallsEnd
  gate_hit : List ChatMessage → ToolCall → List ToolCall → Snap → CallsEnd
  calls_raise : List ChatMessage → Snap → CallsEnd

-- The snapshot after a model turn: counted, paid for and recorded.
unfoldable pub after_turn : Snap → Usage → Snap
after_turn s usage =
    record_step (record s { step_count = s.step_count + 1; tokens = add_usage s.tokens usage })
      model_step turn usage

-- What follows the calls of a model turn.
unfoldable pub after_calls : (List ChatMessage → Snap → Outcome) → CallsEnd → Outcome
after_calls go (all_done t s) = go t s
after_calls go (gate_hit t call rest s) = parked t call rest s
after_calls go (calls_raise t s) = finished runtime_error t s

-- The answer of the executor to one call; `go` runs the calls behind it.
unfoldable pub after_tool :
    (List ChatMessage → Snap → CallsEnd)
    → ToolCall
    → List ToolCall
    → List ChatMessage
    → Snap
    → ToolOutcome
    → CallsEnd
after_tool go call calls t s (payload content) =
    go (t ++ tool_message call content ∷ []) (record_step s tool_step (called call) no_usage)
after_tool go call calls t s approval_pending = gate_hit t call calls s
after_tool go call calls t s tool_raises = calls_raise t s

module _ (d : Driver) where
  -- `while calls: call = calls.pop(0) …`
  unfoldable pub run_calls : List ToolCall → List ChatMessage → Snap → CallsEnd
  run_calls [] t s = all_done t s
  run_calls (call ∷ calls) t s =
      after_tool (λ t' s'. run_calls calls t' s') call calls t s (d.run_tool t call false)

  unfoldable pub take_turn :
      (List ChatMessage → Snap → Outcome) → List ChatMessage → Snap → Turn → Outcome
  take_turn go t s turn_raises = finished runtime_error t s
  take_turn go t s (answered content [] usage) =
      finished (succeeded content) (t ++ assistant content [] ∷ []) (after_turn s usage)
  take_turn go t s (answered content (call ∷ calls) usage) =
      after_calls go
        (run_calls (call ∷ calls) (t ++ assistant content (call ∷ calls) ∷ []) (after_turn s usage))

  -- One round: the cancellation flag, then a turn of the model.
  unfoldable pub begin_round :
      (List ChatMessage → Snap → Outcome) → List ChatMessage → Snap → Bool → Outcome
  begin_round go t s true = finished cancelled t s
  begin_round go t s false = take_turn go t s (d.model t)

  -- `while snap.step_count < max_steps`, with the rounds that are left.
  unfoldable pub model_loop : ℕ → List ChatMessage → Snap → Outcome
  model_loop zero t s = finished step_limit_reached t s
  model_loop (suc rounds) t s =
      begin_round (λ t' s'. model_loop rounds t' s') t s (d.cancel_requested s.step_count)

  unfoldable pub rounds_left : Snap → ℕ
  rounds_left s = d.max_steps - s.step_count

  -- The calls that a resumed turn left over come first.
  unfoldable pub loop : List ToolCall → List ChatMessage → Snap → Outcome
  loop pending t s =
      after_calls (λ t' s'. model_loop (rounds_left s') t' s') (run_calls pending t s)

  unfoldable pub execute_run : List ChatMessage → ℕ → List RunStep → Outcome
  execute_run t step_count steps = loop [] t (claim_snap step_count steps)

  -- The approved call has run.
  resume_after : ToolCall → List ToolCall → List ChatMessage → Snap → ToolOutcome → Outcome
  resume_after call rest t s (payload content) =
      loop rest (t ++ tool_message call content ∷ [])
        (record_step s tool_step (decided call true) no_usage)
  resume_after call rest t s approval_pending = left_running t s
  resume_after call rest t s tool_raises = left_running t s

  -- The checkpoint's pending calls begin with the gated one.
  unfoldable pub resume_run : Bool → List ChatMessage → List ToolCall → ℕ → List RunStep → Outcome
  unfolding resume_after
  resume_run approved t [] step_count steps = left_running t (claim_snap step_count steps)
  resume_run true t (call ∷ rest) step_count steps =
      resume_after call rest t (claim_snap step_count steps) (d.run_tool t call true)
  resume_run false t (call ∷ rest) step_count steps =
      loop rest
        (t
          ++ tool_message call "The human operator denied this action. Choose another approach."
            ∷ [])
        (record_step (claim_snap step_count steps) tool_step (decided call false) no_usage)
