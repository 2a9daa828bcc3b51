-- ===== src/Tools/Envelope.antt =====
-- What stands between a call and the tool: `ToolExecutor.execute` of src/hoursx/tools/executor.py.
use hours_x.Prelude.{
  List, Bool, true, false, ◌&&◌, ◌||◌, not, Option, none, some, String, ◌≡◌, ◌⊎◌, inl, inr, refl,
  arith, Bool-cases,
}
use hours_x.Prelude.Dict.{lookup}
use hours_x.Prelude.Text.{is_one_of}
use hours_x.Tools.{
  ToolOutcome, Validated, ToolRun, Tool, ToolInvocation, ToolExecutor, valid, invalid, returns,
  times_out, raises, outcome, approval_pending, is_granted, needs_approval, after_run, timeout_of,
  run_tool, after_validation, with_tool, execute,
}

module _ (Context : Type 0) (fnmatch : String → String → Bool) where
  -- What was true of a call before its tool ran.
  abbrev pub Cleared : ToolExecutor Context → ToolInvocation → List String → Bool → Type 0
  Cleared e i grants approved =
      (tool : Tool Context) × (args : String) × (is_granted Context fnmatch e.registry i.tool_name
          grants
        ≡ true)
      × (lookup i.tool_name e.registry ≡ some tool)
      × (tool.validate i.arguments ≡ valid args)
      × (((tool.requires_approval || is_one_of tool.name e.force_approval) ≡ false)
          ⊎ (approved ≡ true))

  run_Cleared :
      (e : ToolExecutor Context) (i : ToolInvocation) (ctx : Context) (grants : List String)
      (approved : Bool) (tool : Tool Context) (v : Validated) (o : ToolOutcome)
      → is_granted Context fnmatch e.registry i.tool_name grants ≡ true
      → lookup i.tool_name e.registry ≡ some tool
      → tool.validate i.arguments ≡ v
      → after_validation Context fnmatch e ctx tool i.tool_name approved v ≡ outcome true o
      → Cleared e i grants approved
  unfolding after_validation needs_approval
  run_Cleared e i ctx grants approved tool (valid args) o g l c h =
      (tool, args, g, l, c, ground arith)
  run_Cleared e i ctx grants approved tool (invalid issues) o g l c h = cc

  lookup-Cleared :
      (e : ToolExecutor Context) (i : ToolInvocation) (ctx : Context) (grants : List String)
      (approved : Bool) (found : Option (Tool Context)) (o : ToolOutcome)
      → is_granted Context fnmatch e.registry i.tool_name grants ≡ true
      → lookup i.tool_name e.registry ≡ found
      → with_tool Context fnmatch e ctx i approved found ≡ outcome true o
      → Cleared e i grants approved
  unfolding with_tool
  lookup-Cleared e i ctx grants approved none o g l h = cc
  lookup-Cleared e i ctx grants approved (some tool) o g l h =
      run_Cleared e i ctx grants approved tool (tool.validate i.arguments) o g l refl h

  -- A tool runs only in a call whose name is granted and registered, whose arguments its parameter
  -- model accepts, and which a human has approved if the tool or the operator asks for approval.
  pub execute-Cleared :
      (e : ToolExecutor Context) (i : ToolInvocation) (ctx : Context) (grants : List String)
      (approved : Bool) (o : ToolOutcome)
      → execute Context fnmatch e i ctx grants approved ≡ outcome true o
      → Cleared e i grants approved
  unfolding execute
  execute-Cleared e i ctx grants approved o h =
      elim (Bool-cases (is_granted Context fnmatch e.registry i.tool_name grants)) [
        | inl g ↦
            lookup-Cleared e i ctx grants approved (lookup i.tool_name e.registry) o g refl
              (rw g at h)
        | inr g ↦ ground arith
      ]

  abbrev pub SameBut : ToolExecutor Context → ToolInvocation → Context → List String → Type 0
  SameBut e i ctx grants =
      (execute Context fnmatch e i ctx grants false ≡ approval_pending)
      ⊎ (execute Context fnmatch e i ctx grants false ≡ execute Context fnmatch e i ctx grants true)

  after_run-Outcome :
      (name : String) (r : ToolRun) → (o : ToolOutcome) × (after_run name r ≡ outcome true o)
  unfolding after_run
  after_run-Outcome name (returns o) = (o, refl)
  after_run-Outcome name times_out = (_, refl)
  after_run-Outcome name raises = (_, refl)

  after_validation-Gate :
      (e : ToolExecutor Context) (ctx : Context) (tool : Tool Context) (name : String)
      (v : Validated)
      → (after_validation Context fnmatch e ctx tool name false v ≡ approval_pending)
        ⊎ (after_validation Context fnmatch e ctx tool name false v
            ≡ after_validation Context fnmatch e ctx tool name true v)
  unfolding after_validation
  after_validation-Gate e ctx tool name (invalid issues) = inr refl
  after_validation-Gate e ctx tool name (valid args) = ground arith

  with_tool-Gate :
      (e : ToolExecutor Context) (i : ToolInvocation) (ctx : Context)
      (found : Option (Tool Context))
      → (with_tool Context fnmatch e ctx i false found ≡ approval_pending)
        ⊎ (with_tool Context fnmatch e ctx i false found
            ≡ with_tool Context fnmatch e ctx i true found)
  unfolding with_tool
  with_tool-Gate e i ctx none = inr refl
  with_tool-Gate e i ctx (some tool) =
      after_validation-Gate e ctx tool i.tool_name (tool.validate i.arguments)

  -- With an approval the gate never holds.
  never : (b : Bool) → (b && not true) ≡ false
  never b = ground arith

  approved-Outcome :
      (e : ToolExecutor Context) (ctx : Context) (tool : Tool Context) (name : String)
      (v : Validated)
      → (ran : Bool) × (o : ToolOutcome) × (after_validation Context fnmatch e ctx tool name true v
          ≡ outcome ran o)
  unfolding after_validation run_tool
  approved-Outcome e ctx tool name (invalid issues) = (false, _, refl)
  approved-Outcome e ctx tool name (valid args) =
      let ran =
        after_run-Outcome name
          (tool.run ctx args (timeout_of e.default_timeout tool.timeout_seconds)) in
      (true, ran.0, rw (never (needs_approval Context fnmatch e.force_approval tool)) ran.1)

  with_tool-Outcome :
      (e : ToolExecutor Context) (i : ToolInvocation) (ctx : Context)
      (found : Option (Tool Context))
      → (ran : Bool) × (o : ToolOutcome) × (with_tool Context fnmatch e ctx i true found
          ≡ outcome ran o)
  unfolding with_tool
  with_tool-Outcome e i ctx none = (_, _, refl)
  with_tool-Outcome e i ctx (some tool) =
      approved-Outcome e ctx tool i.tool_name (tool.validate i.arguments)

  -- The approval of a call changes nothing but whether it waits: without it, the executor asks for a
  -- decision or does what it does with it; with it, it gives an outcome, whatever the tool does.
  pub execute-Gate :
      (e : ToolExecutor Context) (i : ToolInvocation) (ctx : Context) (grants : List String)
      → SameBut e i ctx grants
        × ((ran : Bool) × (o : ToolOutcome) × (execute Context fnmatch e i ctx grants true
              ≡ outcome ran o))
  unfolding execute
  execute-Gate e i ctx grants =
      let found = lookup i.tool_name e.registry in
      elim (Bool-cases (is_granted Context fnmatch e.registry i.tool_name grants)) [
        | inl g ↦ rw g (with_tool-Gate e i ctx found, with_tool-Outcome e i ctx found)
        | inr g ↦ rw g (inr refl, (false, _, refl))
      ]
