-- ===== src/Runs/Store/RowOk.antt =====
-- The well-formed rows of runs, and every history of transactions on them, whatever workers, requests
-- and the recovery of orphans do, and in whatever order (src/hoursx/agents.py, orchestration.py,
-- recovery.py).
use hours_x.Prelude.{
  ℕ, List, [], ◌∷◌, ◌++◌, Bool, true, false, Option, none, some, String, ◌-◌, ◌≡◌, refl, arith, All,
  All-snoc, str_eq, Bool-cases, inl, inr,
}
use hours_x.Runs.Store.{
  RunStatus, queued, running, awaiting_approval, succeeded, failed, cancelled, Checkpoint, Run,
  Table, update_where, From, claimable, to_running, orphaned, claim, heartbeat, park_for_approval,
  Final, success, failure, cancellation, status_of, answer_of, error_of, finish, cancel_row,
  request_cancel, is_stale, requeue_orphaned_runs, new_run,
}

abbrev pub is_some {ℓ} : {A : Type ℓ} → Option A → Bool
is_some none = false
is_some (some a) = true

-- A running row beats and holds no checkpoint, a parked row holds one, a terminal row holds none and has
-- ended, and a queued row holds none.
abbrev pub StatusOk : RunStatus → Run → Type 0
StatusOk queued r = r.checkpoint ≡ none
StatusOk running r = (r.checkpoint ≡ none) × (is_some r.heartbeat_at ≡ true)
StatusOk awaiting_approval r = is_some r.checkpoint ≡ true
StatusOk _ r = (r.checkpoint ≡ none) × (is_some r.finished_at ≡ true)

abbrev pub RowOk : Run → Type 0
RowOk r = StatusOk r.status r

pub data Transaction : Type 0 where
  claims : String → From → ℕ → Bool → Transaction
  beats : String → ℕ → Transaction
  parks : String → Checkpoint → ℕ → Transaction
  finishes : String → Final → ℕ → ℕ → Transaction
  asks_to_cancel : String → String → ℕ → Transaction
  recovers : ℕ → ℕ → Transaction
  inserts : String → String → Option String → ℕ → Transaction

unfoldable pub commit : Table → Transaction → Table
commit table (claims id from now present) = (claim id from now present table).1
commit table (beats id now) = heartbeat id now table
commit table (parks id saved count) = park_for_approval id saved count table
commit table (finishes id final count now) = finish id final count now table
commit table (asks_to_cancel id workspace_id now) = (request_cancel id workspace_id now table).1
commit table (recovers now stale_after) = requeue_orphaned_runs now stale_after table
commit table (inserts id workspace_id key now) = table ++ new_run id workspace_id key now ∷ []

unfoldable pub commit_all : Table → List Transaction → Table
commit_all table [] = table
commit_all table (x ∷ xs) = commit_all (commit table x) xs

update-RowOk :
    (p : Run → Bool) (f : Run → Run) (table : Table)
    → ((r : Run) → p r ≡ true → RowOk r → RowOk (f r))
    → All RowOk table
    → All RowOk (update_where p f table)
unfolding update_where
update-RowOk p f [] g h = tt
update-RowOk p f (r ∷ rs) g h = elim (Bool-cases (p r)) [
  | inl e ↦ rw e (g r e h.0, update-RowOk p f rs g h.1)
  | inr e ↦ rw e (h.0, update-RowOk p f rs g h.1)
]

beat-StatusOk :
    (now : ℕ) (st : RunStatus) (r : Run)
    → StatusOk st r
    → StatusOk st (record r { heartbeat_at = some now })
beat-StatusOk now queued r h = h
beat-StatusOk now running r h = (h.0, refl)
beat-StatusOk now awaiting_approval r h = h
beat-StatusOk now succeeded r h = h
beat-StatusOk now failed r h = h
beat-StatusOk now cancelled r h = h

finish-RowOk :
    (final : Final) (count now : ℕ) (r : Run)
    → RowOk (record r {
      status = status_of final;
      final_answer = answer_of final;
      error = error_of final;
      checkpoint = none;
      step_count = count;
      heartbeat_at = none;
      finished_at = some now;
    })
finish-RowOk (success answer) count now r = (refl, refl)
finish-RowOk (failure why) count now r = (refl, refl)
finish-RowOk cancellation count now r = (refl, refl)

cancel_row-RowOk : (now : ℕ) (r : Run) → RowOk r → RowOk (cancel_row now r)
unfolding cancel_row
cancel_row-RowOk now r h = ground arith

requeue-RowOk :
    (cutoff : ℕ) (r : Run)
    → is_stale cutoff r ≡ true
    → RowOk r
    → RowOk (record r { status = queued; heartbeat_at = none })
requeue-RowOk cutoff r e h = ground arith

claim-RowOk :
    (id : String) (from : From) (now : ℕ) (present : Bool) (table : Table)
    → All RowOk table
    → All RowOk (claim id from now present table).1
unfolding claim
claim-RowOk id from now present table h =
    let won = update-RowOk (claimable id from) (to_running now) table (λ r e k. (refl, refl)) h in
    let lost = update-RowOk (claimable id from) (orphaned now) table (λ r e k. (refl, refl)) h in
    ground arith

cancel-RowOk :
    (id workspace_id : String) (now : ℕ) (table : Table)
    → All RowOk table
    → All RowOk (request_cancel id workspace_id now table).1
unfolding request_cancel
cancel-RowOk id workspace_id now table h =
    let settled =
      update-RowOk (λ r. str_eq r.id id) (cancel_row now) table (λ r e k. cancel_row-RowOk now r k)
        h in
    ground arith

commit-RowOk : (table : Table) (x : Transaction) → All RowOk table → All RowOk (commit table x)
unfolding commit heartbeat park_for_approval finish requeue_orphaned_runs new_run
commit-RowOk table (claims id from now present) h = claim-RowOk id from now present table h
commit-RowOk table (beats id now) h =
    update-RowOk _ _ table (λ r e k. beat-StatusOk now r.status r k) h
commit-RowOk table (parks id saved count) h = update-RowOk _ _ table (λ r e k. refl) h
commit-RowOk table (finishes id final count now) h =
    update-RowOk _ _ table (λ r e k. finish-RowOk final count now r) h
commit-RowOk table (asks_to_cancel id workspace_id now) h = cancel-RowOk id workspace_id now table h
commit-RowOk table (recovers now stale_after) h =
    update-RowOk _ _ table (λ r e k. requeue-RowOk (now - stale_after) r e k) h
commit-RowOk table (inserts id workspace_id key now) h =
    All-snoc RowOk table (new_run id workspace_id key now) h refl

-- From a table of such rows on, in every history of transactions, in whatever order the workers, the
-- requests and the recovery commit them: a running row beats and holds no checkpoint, a parked row
-- holds its checkpoint, and an ended row holds none and has its time of ending.
pub commit_all-RowOk :
    (table : Table) (xs : List Transaction) → All RowOk table → All RowOk (commit_all table xs)
unfolding commit_all
commit_all-RowOk table [] h = h
commit_all-RowOk table (x ∷ xs) h = commit_all-RowOk (commit table x) xs (commit-RowOk table x h)
