-- ===== src/Runs/Executor.antt =====
-- The loop of src/hoursx/agents.py with the executor of src/hoursx/tools/executor.py behind it (`_run_tool`).
-- The files of the sandbox and the delegation are among what the tools do with their context, the
-- transcript so far.
use Prim.Native.String.{◌++◌}
use hours_x.Prelude.{
  ℕ, zero, suc, List, Bool, Option, none, some, String, if◌then◌else◌, leb, inl, inr, ap,
}
use hours_x.Prelude.Text.{count}
use hours_x.Tools.{ToolOutcome, ToolExecutor, ToolInvocation, Executed, execute, outcome}
use hours_x.Tools as Tools
use hours_x.Tools.Envelope.{execute-Gate}
use hours_x.Runs.Loop.{ToolCall, ChatMessage, Turn, Driver, payload, approval_pending}
use hours_x.Runs.Loop as Loop
use hours_x.Runs.Loop.Pause.{Answers, Transparent}

-- The first characters of a text.
clip : ℕ → String → String
clip zero s = ""
clip (suc n) String.[] = ""
clip (suc n) (String.◌∷◌ c s) = String.◌∷◌ c (clip n s)

-- `_compact_json`, of the JSON text.
abbrev compact_json : String → String
compact_json text = if leb (count text) 8000 then text else clip 8000 text ++ "…(truncated)"

-- The summary, and the data where there is any.
abbrev payload_text : String → Option String → String
payload_text summary none = summary
payload_text summary (some text) = summary ++ ("\n" ++ compact_json text)

tool_payload : Executed → Loop.ToolOutcome
tool_payload (outcome ran o) = payload (payload_text o.summary o.data_text)
tool_payload Tools.approval_pending = approval_pending

module _ (fnmatch : String → String → Bool) (executor : ToolExecutor (List ChatMessage))
    (tool_grants : List String) (max_steps : ℕ) (model : List ChatMessage → Turn)
    (cancel_requested : ℕ → Bool) where
  abbrev invocation : ToolCall → ToolInvocation
  invocation call = record { tool_name = call.name; arguments = call.arguments }

  unfoldable pub runtime : Driver
  unfolding tool_payload clip
  runtime = record {
    max_steps = max_steps;
    model = model;
    cancel_requested = cancel_requested;
    run_tool = λ t call approved.
        tool_payload
          (execute (List ChatMessage) fnmatch executor (invocation call) t tool_grants approved);
  }

  -- An approved call always answers.
  pub runtime-Answers : Answers runtime
  unfolding runtime tool_payload
  runtime-Answers t call =
      let (ran, o, e) =
        (execute-Gate (List ChatMessage) fnmatch executor (invocation call) t tool_grants).1 in
      (payload_text o.summary o.data_text, ap tool_payload e)

  pub runtime-Transparent : Transparent runtime
  unfolding runtime tool_payload
  runtime-Transparent t call =
      elim (execute-Gate (List ChatMessage) fnmatch executor (invocation call) t tool_grants).0 [
        | inl e ↦ inl (ap tool_payload e)
        | inr e ↦ inr (ap tool_payload e)
      ]
