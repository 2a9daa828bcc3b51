-- ===== src/Runs/Intake/Within.antt =====
-- Runs come in within the quotas: src/hoursx/orchestration.py with src/hoursx/quotas.py.
use hours_x.Prelude.{
  ℕ, suc, ◌-◌, ◌≤◌, ◌⊎◌, ◌<◌, Option-cases, inl, inr, List, [], ◌∷◌, ◌++◌, Bool, ◌&&◌, Option, some,
  String, leb, str_eq, ◌≡◌, refl, arith,
}
use hours_x.Runs.Store.{Run, Table, rowcount, new_run}
use hours_x.Runs.Intake.{
  QuotaPolicy, is_active, active_runs, runs_last_hour, Quota, within_quota, concurrency_exceeded,
  rate_exceeded, enforce_run_quota, existing, insert_run, after_lookup, submit_message,
}

rowcount-snoc :
    (p : Run → Bool) (rs : Table) (r : Run) → rowcount p (rs ++ r ∷ []) ≤ suc (rowcount p rs)
unfolding rowcount
rowcount-snoc p [] r = ground arith
rowcount-snoc p (x ∷ xs) r = ground (arith, rowcount-snoc p xs r)

-- The two numbers that a policy bounds.
abbrev pub WithinQuota : QuotaPolicy → String → ℕ → Table → Type 0
WithinQuota policy workspace_id now table =
    ((policy.max_concurrent_runs ≡ 0)
      ⊎ (active_runs workspace_id table ≤ policy.max_concurrent_runs))
    × ((policy.max_runs_per_hour ≡ 0)
        ⊎ (runs_last_hour workspace_id now table ≤ policy.max_runs_per_hour))

abbrev HasRoom : QuotaPolicy → String → ℕ → Table → Type 0
HasRoom policy workspace_id now table =
    ((policy.max_concurrent_runs ≡ 0)
      ⊎ (active_runs workspace_id table < policy.max_concurrent_runs))
    × ((policy.max_runs_per_hour ≡ 0)
        ⊎ (runs_last_hour workspace_id now table < policy.max_runs_per_hour))

quota-HasRoom :
    (policy : QuotaPolicy) (workspace_id : String) (now : ℕ) (table : Table)
    → enforce_run_quota policy workspace_id now table ≡ within_quota
    → HasRoom policy workspace_id now table
unfolding enforce_run_quota
quota-HasRoom policy workspace_id now table e = ground arith

insert_run-Within :
    (policy : QuotaPolicy) (id workspace_id : String) (key : Option String) (now : ℕ)
    (table : Table) (q : Quota)
    → (q ≡ within_quota → HasRoom policy workspace_id now table)
    → WithinQuota policy workspace_id now table
    → WithinQuota policy workspace_id now (insert_run id workspace_id key now q table).1
unfolding insert_run active_runs runs_last_hour
insert_run-Within policy id workspace_id key now table within_quota room h = ground (
  arith,
  room refl,
  rowcount-snoc (λ r. str_eq r.workspace_id workspace_id && is_active r.status) table
      (new_run id workspace_id key now),
  rowcount-snoc (λ r. str_eq r.workspace_id workspace_id && leb (now - 3600) r.created_at) table
      (new_run id workspace_id key now),
)
insert_run-Within policy id workspace_id key now table concurrency_exceeded room h = h
insert_run-Within policy id workspace_id key now table rate_exceeded room h = h

-- One submission keeps a workspace within its quotas at its own time.
submit-Within :
    (policy : QuotaPolicy) (id workspace_id : String) (key : Option String) (now : ℕ)
    (table : Table)
    → WithinQuota policy workspace_id now table
    → WithinQuota policy workspace_id now
        (submit_message policy id (some workspace_id) key now table).1
unfolding submit_message after_lookup
submit-Within policy id workspace_id key now table h =
    elim (Option-cases (existing workspace_id key table)) [
      | inl e ↦ rw e (
          insert_run-Within policy id workspace_id key now table
            (enforce_run_quota policy workspace_id now table)
            (quota-HasRoom policy workspace_id now table) h)
      | inr (r, e) ↦ rw e h
    ]

runs_last_hour-later :
    (workspace_id : String) (now later : ℕ) (table : Table)
    → now ≤ later
    → runs_last_hour workspace_id later table ≤ runs_last_hour workspace_id now table
unfolding runs_last_hour rowcount
runs_last_hour-later workspace_id now later [] le = omega arith
runs_last_hour-later workspace_id now later (r ∷ rs) le =
    ground (arith, runs_last_hour-later workspace_id now later rs le)

Within-later :
    (policy : QuotaPolicy) (workspace_id : String) (now later : ℕ) (table : Table)
    → now ≤ later
    → WithinQuota policy workspace_id now table
    → WithinQuota policy workspace_id later table
Within-later policy workspace_id now later table le h =
    ground (arith, runs_last_hour-later workspace_id now later table le)

-- A message as it is submitted: the id that the database would draw for its run, its key and its time.
pub record Submission : Type 0 where
  pub id : String
  pub key : Option String
  pub at : ℕ

-- Submissions one after the other, none of them between the check and the insertion of another.
unfoldable pub submit_all : QuotaPolicy → String → List Submission → Table → Table
submit_all policy workspace_id [] table = table
submit_all policy workspace_id (s ∷ ss) table =
    submit_all policy workspace_id ss
      (submit_message policy s.id (some workspace_id) s.key s.at table).1

-- The times do not decrease from `now` to `later`.
abbrev pub InTime : ℕ → List Submission → ℕ → Type 0
InTime now [] later = now ≤ later
InTime now (s ∷ ss) later = (now ≤ s.at) × InTime s.at ss later

-- Let submissions to a workspace come one after the other, at times that do not decrease, and let
-- nothing else be committed meanwhile. A workspace that is within its quotas before them is so after
-- them, and at every later moment: the number of its active runs and that of its runs of the last hour
-- are at or below the limits that are on, whatever each submission gives.
pub submit_all-Within :
    (policy : QuotaPolicy) (workspace_id : String) (now later : ℕ) (ss : List Submission)
    (table : Table)
    → InTime now ss later
    → WithinQuota policy workspace_id now table
    → WithinQuota policy workspace_id later (submit_all policy workspace_id ss table)
unfolding submit_all
submit_all-Within policy workspace_id now later [] table le h =
    Within-later policy workspace_id now later table le h
submit_all-Within policy workspace_id now later (s ∷ ss) table (le, rest) h =
    submit_all-Within policy workspace_id s.at later ss _ rest (
      submit-Within policy s.id workspace_id s.key s.at table
        (Within-later policy workspace_id now s.at table le h))
