-- ===== src/Runs/Store.antt =====
-- The rows of runs: `_claim`, `_park_for_approval`, `_finish` and `_record_step`'s beat of
-- src/hoursx/agents.py, src/hoursx/recovery.py, and `submit_message` and `request_cancel` of
-- src/hoursx/orchestration.py. Each function is one transaction on the table; times are given.
pub mod RowOk
pub mod Claims
pub mod Recovery
mod Tests
use hours_x.Prelude.{
  ℕ, suc, ◌+◌, ◌-◌, List, [], ◌∷◌, ◌++◌, Bool, true, false, ◌&&◌, ◌||◌, not, Option, none, some,
  String, if◌then◌else◌, ltb, ◌==◌, map, str_eq,
}
use hours_x.Runs.Loop.{ChatMessage, ToolCall}

pub data RunStatus : Type 0 where
  queued running awaiting_approval succeeded failed cancelled : RunStatus

pub record Checkpoint : Type 0 where
  pub messages : List ChatMessage
  pub pending_calls : List ToolCall

pub record Run : Type 0 where
  pub id : String
  pub workspace_id : String
  pub idempotency_key : Option String
  pub status : RunStatus
  pub cancel_requested : Bool
  pub final_answer : Option String
  pub error : Option String
  pub checkpoint : Option Checkpoint
  pub step_count : ℕ
  pub heartbeat_at : Option ℕ
  pub created_at : ℕ
  pub finished_at : Option ℕ

abbrev pub Table : Type 0
Table = List Run

-- UPDATE … WHERE p
unfoldable pub update_where : (Run → Bool) → (Run → Run) → Table → Table
update_where p f [] = []
update_where p f (r ∷ rs) = (if p r then f r else r) ∷ update_where p f rs

-- The rows that an UPDATE counts.
unfoldable pub rowcount : (Run → Bool) → Table → ℕ
rowcount p [] = 0
rowcount p (r ∷ rs) = if p r then suc (rowcount p rs) else rowcount p rs

unfoldable pub find_run : String → Table → Option Run
find_run id [] = none
find_run id (r ∷ rs) = if str_eq r.id id then some r else find_run id rs

-- What a claim asks for: `execute_run` and `resume_run`.
pub data From : Type 0 where
  from_queued from_awaiting : From

abbrev pub is_from : From → RunStatus → Bool
is_from from_queued queued = true
is_from from_awaiting awaiting_approval = true
is_from _ _ = false

abbrev pub claimable : String → From → Run → Bool
claimable id from r = str_eq r.id id && is_from from r.status

abbrev pub to_running : ℕ → Run → Run
to_running now r = record r { status = running; checkpoint = none; heartbeat_at = some now }

-- The claimed row, when its session or its profile is gone.
abbrev pub orphaned : ℕ → Run → Run
orphaned now r = record (to_running now r) {
  status = failed;
  error = some "session or agent profile no longer exists";
  finished_at = some now;
}

-- Whether the claim is won, with the table after it. `present` tells whether the session and the
-- profile of the run still exist.
unfoldable pub claim : String → From → ℕ → Bool → Table → Bool × Table
claim id from now present table =
    let claimed = update_where (claimable id from) (to_running now) table in
    if not (rowcount (claimable id from) table == 1)
    then (false, claimed)
    else if present
    then (true, claimed)
    else (false, update_where (claimable id from) (orphaned now) table)

unfoldable pub heartbeat : String → ℕ → Table → Table
heartbeat id now = update_where (λ r. str_eq r.id id) (λ r. record r { heartbeat_at = some now })

unfoldable pub park_for_approval : String → Checkpoint → ℕ → Table → Table
park_for_approval id saved count =
    update_where (λ r. str_eq r.id id)
      (λ r. record r { status = awaiting_approval; step_count = count; checkpoint = some saved })

-- How `_finish` is called: with an answer, with an error, or for a cancellation.
pub data Final : Type 0 where
  success : String → Final
  failure : String → Final
  cancellation : Final

abbrev pub status_of : Final → RunStatus
status_of (success answer) = succeeded
status_of (failure why) = failed
status_of cancellation = cancelled

abbrev pub answer_of : Final → Option String
answer_of (success answer) = some answer
answer_of _ = none

abbrev pub error_of : Final → Option String
error_of (success answer) = none
error_of (failure why) = some why
error_of cancellation = some "cancelled by operator"

unfoldable pub finish : String → Final → ℕ → ℕ → Table → Table
finish id final count now =
    update_where (λ r. str_eq r.id id)
      (λ r. record r {
        status = status_of final;
        final_answer = answer_of final;
        error = error_of final;
        checkpoint = none;
        step_count = count;
        heartbeat_at = none;
        finished_at = some now;
      })

abbrev pub is_terminal : RunStatus → Bool
is_terminal succeeded = true
is_terminal failed = true
is_terminal cancelled = true
is_terminal _ = false

-- A run that no worker drives is settled at once; another is flagged for its loop.
unfoldable pub cancel_row : ℕ → Run → Run
cancel_row now r = elim r.status [
  | queued ↦ record r {
    cancel_requested = true;
    status = cancelled;
    error = some "cancelled by operator";
    checkpoint = none;
    finished_at = some now;
  }
  | awaiting_approval ↦ record r {
    cancel_requested = true;
    status = cancelled;
    error = some "cancelled by operator";
    checkpoint = none;
    finished_at = some now;
  }
  | running ↦ record r { cancel_requested = true }
  | succeeded ↦ r
  | failed ↦ r
  | cancelled ↦ r
]

-- `none` is the `NotFoundError`.
unfoldable pub request_cancel : String → String → ℕ → Table → Option Bool × Table
request_cancel id workspace_id now table = elim (find_run id table) [
  | none ↦ (none, table)
  | some r ↦ if not (str_eq r.workspace_id workspace_id) then (none, table) else (
    some (not (is_terminal r.status)),
    update_where (λ r. str_eq r.id id) (cancel_row now) table,
  )
]

abbrev pub before : Option ℕ → ℕ → Bool
before none cutoff = false
before (some t) cutoff = ltb t cutoff

abbrev pub is_running : RunStatus → Bool
is_running running = true
is_running _ = false

abbrev pub is_stale : ℕ → Run → Bool
is_stale cutoff r = is_running r.status && before r.heartbeat_at cutoff

-- SELECT, then an UPDATE for each that asserts the same again, in one transaction.
unfoldable pub requeue_orphaned_runs : ℕ → ℕ → Table → Table
requeue_orphaned_runs now stale_after =
    update_where (is_stale (now - stale_after))
      (λ r. record r { status = queued; heartbeat_at = none })

-- The row that `submit_message` inserts.
unfoldable pub new_run : String → String → Option String → ℕ → Run
new_run id workspace_id key now = record {
  id = id;
  workspace_id = workspace_id;
  idempotency_key = key;
  status = queued;
  cancel_requested = false;
  final_answer = none;
  error = none;
  checkpoint = none;
  step_count = 0;
  heartbeat_at = none;
  created_at = now;
  finished_at = none;
}
