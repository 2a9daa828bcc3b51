-- ===== src/Runs/Tests.antt =====
-- Runs of a small agent, whose one tool asks for approval, and of a small table of runs.
use hours_x.Prelude.{ℕ, List, [], ◌∷◌, Bool, true, false, length, none, refl, str_eq, ◌≡◌, arith}
use hours_x.Tools.{Tool, ToolExecutor, valid, returns, execute, is_granted}
use hours_x.Prelude.Dict.{lookup}
use hours_x.Prelude.Text.{is_one_of}
use hours_x.Runs.Loop.{
  ToolCall, ChatMessage, user, assistant, tool_result, Usage, Turn, answered, Driver, RunStep,
  StepDetail, turn, decided, Snap, model_step, tool_step, StepKind, no_usage, finished, succeeded,
  execute_run, resume_run, claim_snap, loop, run_calls, after_tool, after_calls, model_loop,
  begin_round, take_turn, after_turn, record_step, rounds_left,
}
use hours_x.Runs.Executor.{runtime, runtime-Answers, runtime-Transparent}
use hours_x.Runs.Loop.Keeps.{last_snap}
use hours_x.Runs.Loop.Limits.{claimed-Counted, claimed-Paid, TurnsWithin, Paid}
use hours_x.Runs.Loop.Pause.{ungated}
use hours_x.Runs.Loop.Tokens.{forget}
use hours_x.Runs.Loop.Resume.{approve, approve_all, approve_all-Leads}
use hours_x.Runs.Loop.Ends.{is_finished, approve_all-Finishes}

abbrev write_tool : Tool (List ChatMessage)
write_tool = record {
  name = "fs.write";
  requires_approval = true;
  timeout_seconds = none;
  validate = λ arguments. valid arguments;
  run =
      λ t arguments timeout. returns (record { ok = true; summary = "written"; data_text = none });
}

abbrev tools : ToolExecutor (List ChatMessage)
tools = record {
  registry = ("fs.write", write_tool) ∷ [];
  default_timeout = 120;
  force_approval = [];
}

abbrev call_write : ToolCall
call_write = record { id = "c1"; name = "fs.write"; arguments = "hi" }

abbrev first_usage : Usage
first_usage = record { input_tokens = 10; output_tokens = 3 }

abbrev last_usage : Usage
last_usage = record { input_tokens = 20; output_tokens = 1 }

-- It asks for the tool, then answers.
abbrev agent : List ChatMessage → Turn
agent (user goal ∷ []) = answered "I write." (call_write ∷ []) first_usage
agent _ = answered "done" [] last_usage

abbrev never : ℕ → Bool
never step = false

abbrev driver : Driver
driver = runtime str_eq tools ("fs.write" ∷ []) 5 agent never

abbrev asked : List ChatMessage
asked = user "write hi" ∷ []

abbrev told : List ChatMessage
told =
    user "write hi"
    ∷ assistant "I write." (call_write ∷ [])
    ∷ tool_result "c1" "written"
    ∷ assistant "done" []
    ∷ []

abbrev made : ℕ → StepKind → StepDetail → Usage → RunStep
made index kind detail usage = record { index = index; kind = kind; detail = detail; usage = usage }

-- The tokens of the first turn are lost with the pause.
abbrev ended : Snap
ended = record {
  step_count = 2;
  step_seq = 3;
  tokens = last_usage;
  steps =
      made 0 model_step turn first_usage
      ∷ made 1 tool_step (decided call_write true) no_usage
      ∷ made 2 model_step turn last_usage
      ∷ [];
}

paused_once :
    approve_all driver 1 (execute_run driver asked 0 []) ≡ finished (succeeded "done") told ended
unfolding approve approve_all execute_run resume_run runtime loop run_calls after_tool after_calls
    model_loop begin_round take_turn after_turn record_step claim_snap rounds_left execute
    is_granted lookup is_one_of
paused_once = refl

approve_all-Leads_example :
    forget (execute_run (ungated driver) asked 0 [])
    ≡ forget (finished (succeeded "done") told ended)
approve_all-Leads_example =
    approve_all-Leads driver (runtime-Answers str_eq tools ("fs.write" ∷ []) 5 agent never)
      (runtime-Transparent str_eq tools ("fs.write" ∷ []) 5 agent never) 1 asked told 0 []
      (succeeded "done") ended paused_once

approve_all-Finishes_example :
    is_finished (
      approve_all driver
        (length (last_snap (execute_run (ungated driver) asked 0 [])).steps)
        (execute_run driver asked 0 []))
    ≡ true
approve_all-Finishes_example =
    approve_all-Finishes driver (runtime-Answers str_eq tools ("fs.write" ∷ []) 5 agent never)
      (runtime-Transparent str_eq tools ("fs.write" ∷ []) 5 agent never) asked 0 []

claimed-Counted_example :
    TurnsWithin 5 (last_snap (execute_run driver asked 1 (made 0 model_step turn first_usage ∷ [])))
    × ((approved : Bool) (pending : List ToolCall)
        → TurnsWithin 5 (
            last_snap (
              resume_run driver approved asked pending 1
                (made 0 model_step turn first_usage ∷ []))))
unfolding runtime
claimed-Counted_example =
    claimed-Counted driver asked 1 (made 0 model_step turn first_usage ∷ []) refl (omega arith)

claimed-Paid_example :
    Paid driver asked 0 [] (last_snap (execute_run driver asked 0 []))
    × ((approved : Bool) (pending : List ToolCall)
        → Paid driver asked 0 [] (last_snap (resume_run driver approved asked pending 0 [])))
claimed-Paid_example = claimed-Paid driver asked 0 []
