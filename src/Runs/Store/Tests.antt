-- ===== src/Runs/Store/Tests.antt =====
-- A table with a queued run, a parked run and a running run that has gone silent.
use hours_x.Prelude.{
  List, [], ◌-◌, ◌∷◌, true, false, none, some, ◌≡◌, ◌⊎◌, inr, ◌≢◌, String, eq_iff, refl, arith, All,
}
use hours_x.Runs.Store.{
  Run, Table, running, awaiting_approval, from_queued, claim, success, is_running,
  requeue_orphaned_runs, rowcount, new_run,
}
use hours_x.Runs.Store.RowOk.{
  RowOk, commit_all, commit_all-RowOk, Transaction, claims, beats, finishes, asks_to_cancel,
  recovers,
}
use hours_x.Runs.Store.Claims.{claim-Exclusive}
use hours_x.Runs.Store.Recovery.{Rowwise, Recovered, Alive, requeue_complete}
use hours_x.Runs.Intake.Within.{submit_all, submit_all-Within, Submission, WithinQuota}
use hours_x.Runs.Intake.{
  QuotaPolicy, submit_message, submitted, enforce_run_quota, active_runs, runs_last_hour, find_key,
}

abbrev fresh : Run
fresh = new_run "r1" "w" (some "k1") 100

abbrev waiting : Run
waiting = record (new_run "r2" "w" none 90) {
  status = awaiting_approval;
  checkpoint = some (record { messages = []; pending_calls = [] });
}

abbrev silent : Run
silent = record (new_run "r3" "w" none 10) { status = running; heartbeat_at = some 20 }

abbrev table : Table
table = fresh ∷ waiting ∷ silent ∷ []

table-RowOk : All RowOk table
unfolding new_run
table-RowOk = (refl, (refl, ((refl, refl), tt)))

abbrev history : List Transaction
history =
    claims "r1" from_queued 101 true ∷ recovers 1000 900 ∷ finishes "r1" (success "done") 2 102 ∷ []

commit_all-RowOk_example : All RowOk (commit_all table history)
commit_all-RowOk_example = commit_all-RowOk table history table-RowOk

won : (claim "r1" from_queued 101 true table).0 ≡ true
unfolding claim rowcount new_run
won = refl

claim-Exclusive_example :
    (claim "r1" from_queued 105 true (
      commit_all
        (claim "r1" from_queued 101 true table).1
        (beats "r1" 102 ∷ claims "r1" from_queued 103 true ∷ asks_to_cancel "r1" "w" 104 ∷ []))).0
    ≡ false
claim-Exclusive_example =
    claim-Exclusive "r1" from_queued 101 105 true true table
      (beats "r1" 102 ∷ claims "r1" from_queued 103 true ∷ asks_to_cancel "r1" "w" 104 ∷ []) won
      (refl, (refl, (refl, tt)))

requeue_complete_example :
    Rowwise (Recovered (1000 - 900)) table (requeue_orphaned_runs 1000 900 table)
    × All
        (λ r. (is_running r.status ≡ false) ⊎ Alive (1000 - 900) r)
        (requeue_orphaned_runs 1000 900 table)
requeue_complete_example = requeue_complete 1000 900 table table-RowOk

abbrev policy : QuotaPolicy
policy = record { max_concurrent_runs = 4; max_runs_per_hour = 240 }

abbrev strict : QuotaPolicy
strict = record { max_concurrent_runs = 1; max_runs_per_hour = 1 }

taken : (submit_message policy "r4" (some "w") (some "k4") 110 table).0 ≡ submitted "r4"
unfolding submit_message enforce_run_quota active_runs runs_last_hour rowcount find_key new_run
taken = refl

key_given : ◌≢◌ {A = String} "k4" ""
key_given = ground (arith, eq_iff "k4" "")

within : WithinQuota policy "w" 110 table
unfolding active_runs runs_last_hour rowcount new_run
within = (inr (omega arith), inr (omega arith))

-- The second repeats a key, and the third is refused, since four runs are active.
abbrev messages : List Submission
messages =
    record { id = "r4"; key = none; at = 110 }
    ∷ record { id = "r5"; key = some "k1"; at = 200 }
    ∷ record { id = "r6"; key = some "k6"; at = 4000 }
    ∷ []

submit_all-Within_example : WithinQuota policy "w" 5000 (submit_all policy "w" messages table)
submit_all-Within_example =
    submit_all-Within policy "w" 110 5000 messages table
      (omega arith, (omega arith, (omega arith, omega arith))) within
