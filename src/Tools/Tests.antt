-- ===== src/Tools/Tests.antt =====
-- An executor with one tool that needs approval and one that does not.
use hours_x.Prelude.{
  List, [], ◌∷◌, true, false, none, some, String, ◌≡◌, refl, str_eq, if◌then◌else◌, ℕ,
}
use hours_x.Prelude.Dict.{lookup, insert}
use hours_x.Prelude.Text.{is_one_of}
use hours_x.Tools.{
  Tool, ToolExecutor, ToolInvocation, ToolOutcome, valid, invalid, returns, raises, outcome,
  approval_pending, execute, is_granted, register, Registry,
}
use hours_x.Tools.Envelope.{Cleared, execute-Cleared}

abbrev written : ToolOutcome
written = record { ok = true; summary = "written"; data_text = none }

abbrev write_tool : Tool ℕ
write_tool = record {
  name = "fs.write";
  requires_approval = true;
  timeout_seconds = none;
  validate = λ arguments. if str_eq arguments "" then invalid "path: missing" else valid arguments;
  run = λ context arguments timeout. returns written;
}

abbrev read_tool : Tool ℕ
read_tool = record {
  name = "fs.read";
  requires_approval = false;
  timeout_seconds = some 5;
  validate = λ arguments. valid arguments;
  run = λ context arguments timeout. raises;
}

abbrev tools : Registry ℕ str_eq
tools = ("fs.write", write_tool) ∷ ("fs.read", read_tool) ∷ []

abbrev executor : ToolExecutor ℕ
executor = record { registry = tools; default_timeout = 120; force_approval = [] }

abbrev grants : List String
grants = "fs.write" ∷ "fs.read" ∷ []

abbrev write_call : ToolInvocation
write_call = record { tool_name = "fs.write"; arguments = "notes" }

writes : execute ℕ str_eq executor write_call 7 grants true ≡ outcome true written
unfolding execute is_granted lookup is_one_of
writes = refl

waits : execute ℕ str_eq executor write_call 7 grants false ≡ approval_pending
unfolding execute is_granted lookup is_one_of
waits = refl

execute-Cleared_example : Cleared ℕ str_eq executor write_call grants true
execute-Cleared_example = execute-Cleared ℕ str_eq executor write_call 7 grants true written writes

abbrev first_tool : Registry ℕ str_eq
first_tool = ("fs.write", write_tool) ∷ []

registers : register ℕ str_eq first_tool read_tool ≡ some tools
unfolding register lookup insert
registers = refl
