-- ===== src/Tools.antt =====
-- The tool registry and the executor: src/hoursx/tools/registry.py and src/hoursx/tools/executor.py. The
-- parameter models of pydantic, `fnmatch` and what a tool does are parameters; a context is any type.
pub mod Envelope
pub mod Grants
mod Tests
use Prim.Native.Nat.{Ordering}
use Prim.Native.String.{◌++◌ as text_append, compare}
use hours_x.Prelude.{
  ℕ, List, [], ◌∷◌, Bool, true, false, ◌&&◌, ◌||◌, not, Option, none, some, String, any_of,
  if◌then◌else◌, ◌==◌,
}
use hours_x.Prelude.Dict.{lookup, insert}
use hours_x.Prelude.Text.{is_one_of}

pub record ToolOutcome : Type 0 where
  pub ok : Bool
  pub summary : String
  -- The data as JSON text, when there is any.
  pub data_text : Option String

abbrev pub failure : String → ToolOutcome
failure summary = record { ok = false; summary = summary; data_text = none }

-- params_model.model_validate
pub data Validated : Type 0 where
  valid : String → Validated
  invalid : String → Validated

-- What `asyncio.wait_for(tool.run(args, ctx), timeout)` gives.
pub data ToolRun : Type 0 where
  returns : ToolOutcome → ToolRun
  times_out : ToolRun
  raises : ToolRun

pub record Tool (Context : Type 0) : Type 0 where
  pub name : String
  pub requires_approval : Bool
  pub timeout_seconds : Option ℕ
  pub validate : String → Validated
  pub run : Context → String → ℕ → ToolRun

pub record ToolInvocation : Type 0 where
  pub tool_name : String
  pub arguments : String

-- An outcome, with whether the tool was run, or `ApprovalPending`.
pub data Executed : Type 0 where
  outcome : Bool → ToolOutcome → Executed
  approval_pending : Executed

-- What `ToolExecutor` is built with, and its registry.
pub record ToolExecutor (Context : Type 0) : Type 0 where
  pub registry : List (String × Tool Context)
  pub default_timeout : ℕ
  pub force_approval : List String

-- `a <= b` on names.
unfoldable pub name_le : String → String → Bool
name_le a b = elim (compare a b) [ Ordering.lt ↦ true | Ordering.eq ↦ true | Ordering.gt ↦ false ]

timeout_of : ℕ → Option ℕ → ℕ
timeout_of default_timeout none = default_timeout
timeout_of default_timeout (some seconds) = if seconds == 0 then default_timeout else seconds

-- Its texts leave out the number of seconds.
after_run : String → ToolRun → Executed
after_run name (returns o) = outcome true o
after_run name times_out = outcome true (
    failure (
      text_append (text_append "'" name) "' timed out. Try a smaller operation or split the work."))
after_run name raises = outcome true (
    failure (text_append (text_append "'" name) "' failed unexpectedly. Try a different approach."))

abbrev not_available : String → Executed
not_available name = outcome false (
    failure (
      text_append "Tool '" (
        text_append name
          "' is not available to this agent. Use one of your listed tools instead.")))

module _ (Context : Type 0) (fnmatch : String → String → Bool) where
  abbrev pub Registry : Type 0
  Registry = List (String × Tool Context)

  is_registered : Option (Tool Context) → Bool
  is_registered none = false
  is_registered (some tool) = true

  -- `none` is the `ValueError`.
  unfoldable pub register : Registry → Tool Context → Option Registry
  unfolding is_registered
  register r tool =
      if is_registered (lookup tool.name r) then none else some (insert tool.name tool r)

  unfoldable pub is_granted : Registry → String → List String → Bool
  unfolding is_registered
  is_granted r name grants = is_registered (lookup name r) && any_of (fnmatch name) grants

  unfoldable pub place : String × Tool Context → Registry → Registry
  place item [] = item ∷ []
  place item (x ∷ xs) = if name_le item.0 x.0 then item ∷ x ∷ xs else x ∷ place item xs

  -- sorted(self._tools.items()): the names are distinct, so they alone are compared.
  unfoldable pub sorted : Registry → Registry
  sorted [] = []
  sorted (x ∷ xs) = place x (sorted xs)

  unfoldable pub keep_granted : List String → Registry → List (Tool Context)
  keep_granted grants [] = []
  keep_granted grants ((name, tool) ∷ r) =
      if any_of (fnmatch name) grants then tool ∷ keep_granted grants r else keep_granted grants r

  unfoldable pub granted : Registry → List String → List (Tool Context)
  granted r grants = keep_granted grants (sorted r)

  needs_approval : List String → Tool Context → Bool
  needs_approval force_approval tool = tool.requires_approval || is_one_of tool.name force_approval

  run_tool : ToolExecutor Context → Context → Tool Context → String → String → Executed
  unfolding timeout_of after_run
  run_tool e ctx tool name args =
      after_run name (tool.run ctx args (timeout_of e.default_timeout tool.timeout_seconds))

  -- The approval gate stands behind the validation of the arguments.
  after_validation :
      ToolExecutor Context → Context → Tool Context → String → Bool → Validated → Executed
  unfolding needs_approval run_tool
  after_validation e ctx tool name approved (invalid issues) = outcome false (failure issues)
  after_validation e ctx tool name approved (valid args) =
      if needs_approval e.force_approval tool && not approved
      then approval_pending
      else run_tool e ctx tool name args

  -- A name that is granted is registered.
  with_tool :
      ToolExecutor Context → Context → ToolInvocation → Bool → Option (Tool Context) → Executed
  unfolding after_validation
  with_tool e ctx i approved none = not_available i.tool_name
  with_tool e ctx i approved (some tool) =
      after_validation e ctx tool i.tool_name approved (tool.validate i.arguments)

  unfoldable pub execute :
      ToolExecutor Context → ToolInvocation → Context → List String → Bool → Executed
  unfolding with_tool
  execute e i ctx grants approved =
      if not (is_granted e.registry i.tool_name grants)
      then not_available i.tool_name
      else with_tool e ctx i approved (lookup i.tool_name e.registry)
