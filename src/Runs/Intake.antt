-- ===== src/Runs/Intake.antt =====
-- How runs come in: `submit_message` of src/hoursx/orchestration.py with src/hoursx/quotas.py. Times are in
-- seconds; the plan that may be put before the goal is left out.
pub mod Within
use hours_x.Prelude.{
  ℕ, suc, ◌-◌, ◌≤◌, ◌⊎◌, ◌<◌, Option-cases, inl, inr, [], ◌∷◌, ◌++◌, Bool, true, false, ◌&&◌,
  Option, none, some, String, if◌then◌else◌, ltb, leb, str_eq, ◌≡◌, ◌≢◌, eq_iff, refl, arith, ap,
  eq_refl,
}
use hours_x.Runs.Store.{
  RunStatus, queued, running, awaiting_approval, Run, Table, rowcount, new_run,
}

pub record QuotaPolicy : Type 0 where
  pub max_concurrent_runs : ℕ
  pub max_runs_per_hour : ℕ

abbrev pub is_active : RunStatus → Bool
is_active queued = true
is_active running = true
is_active awaiting_approval = true
is_active _ = false

unfoldable pub active_runs : String → Table → ℕ
active_runs workspace_id = rowcount (λ r. str_eq r.workspace_id workspace_id && is_active r.status)

unfoldable pub runs_last_hour : String → ℕ → Table → ℕ
runs_last_hour workspace_id now =
    rowcount (λ r. str_eq r.workspace_id workspace_id && leb (now - 3600) r.created_at)

pub data Quota : Type 0 where
  within_quota concurrency_exceeded rate_exceeded : Quota

-- A limit of zero is off.
unfoldable pub enforce_run_quota : QuotaPolicy → String → ℕ → Table → Quota
enforce_run_quota policy workspace_id now table =
    if ltb 0 policy.max_concurrent_runs
      && leb policy.max_concurrent_runs (active_runs workspace_id table)
    then concurrency_exceeded
    else if ltb 0 policy.max_runs_per_hour
        && leb policy.max_runs_per_hour (runs_last_hour workspace_id now table)
    then rate_exceeded
    else within_quota

abbrev pub has_key : String → String → Option String → Run → Bool
has_key workspace_id key none r = false
has_key workspace_id key (some k) r = str_eq r.workspace_id workspace_id && str_eq k key

-- SELECT … WHERE workspace_id = ? AND idempotency_key = ?, the first.
unfoldable pub find_key : String → String → Table → Option Run
find_key workspace_id key [] = none
find_key workspace_id key (r ∷ rs) =
    if has_key workspace_id key r.idempotency_key r then some r else find_key workspace_id key rs

pub data Submitted : Type 0 where
  submitted : String → Submitted
  not_found : Submitted
  refused : Quota → Submitted

-- An empty key counts as none.
abbrev existing : String → Option String → Table → Option Run
existing workspace_id none table = none
existing workspace_id (some key) table =
    if str_eq key "" then none else find_key workspace_id key table

insert_run : String → String → Option String → ℕ → Quota → Table → Submitted × Table
insert_run id workspace_id key now within_quota table =
    (submitted id, table ++ new_run id workspace_id key now ∷ [])
insert_run id workspace_id key now q table = (refused q, table)

after_lookup :
    QuotaPolicy → String → String → Option String → ℕ → Table → Option Run → Submitted × Table
unfolding insert_run
after_lookup policy id workspace_id key now table (some r) = (submitted r.id, table)
after_lookup policy id workspace_id key now table none =
    insert_run id workspace_id key now (enforce_run_quota policy workspace_id now table) table

-- The workspace is that of the session; `id` is what the database draws. No other submission comes
-- between the check and the insertion.
unfoldable pub submit_message :
    QuotaPolicy → String → Option String → Option String → ℕ → Table → Submitted × Table
unfolding after_lookup
submit_message policy id none key now table = (not_found, table)
submit_message policy id (some workspace_id) key now table =
    after_lookup policy id workspace_id key now table (existing workspace_id key table)

find_key-insert :
    (id workspace_id key : String) (now : ℕ) (table : Table)
    → find_key workspace_id key table ≡ none
    → find_key workspace_id key (table ++ new_run id workspace_id (some key) now ∷ [])
      ≡ some (new_run id workspace_id (some key) now)
unfolding find_key new_run
find_key-insert id workspace_id key now [] h = simp eq_refl
find_key-insert id workspace_id key now (r ∷ rs) h =
    ground (arith, find_key-insert id workspace_id key now rs)

inserted :
    (id workspace_id key : String) (now : ℕ) (q : Quota) (table : Table) (run : String)
    → find_key workspace_id key table ≡ none
    → (insert_run id workspace_id (some key) now q table).0 ≡ submitted run
    → (r : Run) × (find_key workspace_id key (insert_run id workspace_id (some key) now q table).1
        ≡ some r)
      × (r.id ≡ run)
unfolding insert_run new_run
inserted id workspace_id key now within_quota table run free h =
    (new_run id workspace_id (some key) now, find_key-insert id workspace_id key now table free, cc)
inserted id workspace_id key now concurrency_exceeded table run free h = cc
inserted id workspace_id key now rate_exceeded table run free h = cc

kept :
    (policy : QuotaPolicy) (id workspace_id key : String) (now : ℕ) (table : Table) (run : String)
    (found : Option Run)
    → find_key workspace_id key table ≡ found
    → (after_lookup policy id workspace_id (some key) now table found).0 ≡ submitted run
    → (r : Run) × (find_key workspace_id key
          (after_lookup policy id workspace_id (some key) now table found).1
        ≡ some r)
      × (r.id ≡ run)
unfolding after_lookup
kept policy id workspace_id key now table run (some r) e h = (r, e, cc)
kept policy id workspace_id key now table run none e h =
    inserted id workspace_id key now _ table run e h

-- A submission with a key, once it has been taken, gives the same run to every retry in the same
-- workspace, at any later time, and whatever the quota is by then: the retry inserts nothing.
pub submit_retried :
    (policy later_policy : QuotaPolicy) (id again workspace_id key : String) (now later : ℕ)
    (table : Table) (run : String)
    → key ≢ ""
    → (submit_message policy id (some workspace_id) (some key) now table).0 ≡ submitted run
    → submit_message later_policy again
        (some workspace_id)
        (some key)
        later
        (submit_message policy id (some workspace_id) (some key) now table).1
      ≡ (submitted run, (submit_message policy id (some workspace_id) (some key) now table).1)
unfolding submit_message after_lookup
submit_retried policy later_policy id again workspace_id key now later table run k h =
    let keyed : str_eq key "" ≡ false = ground (arith, eq_iff key "") in
    let (r, e, same) =
      kept policy id workspace_id key now table run (find_key workspace_id key table) refl
        (rw keyed at h) in
    let after =
      (after_lookup policy id workspace_id (some key) now table
        (find_key workspace_id key table)).1 in
    rw (keyed, e) (ap (λ x. (submitted x, after)) same)
