-- ===== src/Runs/Store/Claims.antt =====
-- The claim of a run has one winner (`_claim` of src/hoursx/agents.py).
use hours_x.Prelude.{
  ℕ, List, [], ◌∷◌, ◌++◌, Bool, true, false, Option, none, some, String, ◌≡◌, refl, arith, All,
  All-snoc, str_eq, eq_iff, Bool-cases, inl, inr,
}
use hours_x.Runs.Store.{
  Run, Table, update_where, rowcount, From, from_queued, from_awaiting, claimable, to_running,
  orphaned, claim, Checkpoint, heartbeat, park_for_approval, Final, status_of, answer_of, error_of,
  finish, cancel_row, request_cancel, requeue_orphaned_runs, new_run,
}
use hours_x.Runs.Store.RowOk.{
  Transaction, claims, beats, parks, finishes, asks_to_cancel, recovers, inserts, commit,
  commit_all,
}

-- What makes a run open to a claim of this kind again: it is parked, or it is requeued or inserted.
abbrev pub reopens : From → String → Transaction → Bool
reopens from_awaiting id (parks j saved count) = str_eq j id
reopens from_queued id (recovers now stale_after) = true
reopens from_queued id (inserts j workspace_id key now) = str_eq j id
reopens _ _ _ = false

module _ (id : String) (from : From) where
  Taken : Run → Type 0
  Taken r = claimable id from r ≡ false

  update-Taken :
      (p : Run → Bool) (f : Run → Run) (table : Table)
      → ((r : Run) → p r ≡ true → Taken r → Taken (f r))
      → All Taken table
      → All Taken (update_where p f table)
  unfolding update_where
  update-Taken p f [] g h = tt
  update-Taken p f (r ∷ rs) g h = elim (Bool-cases (p r)) [
    | inl e ↦ rw e (g r e h.0, update-Taken p f rs g h.1)
    | inr e ↦ rw e (h.0, update-Taken p f rs g h.1)
  ]

  Taken-rowcount : (table : Table) → All Taken table → rowcount (claimable id from) table ≡ 0
  unfolding rowcount Taken
  Taken-rowcount [] h = refl
  Taken-rowcount (r ∷ rs) h = ground (arith, Taken-rowcount rs h.1)

  to_running-Taken :
      (now : ℕ) (table : Table)
      → All Taken (update_where (claimable id from) (to_running now) table)
  unfolding update_where Taken
  to_running-Taken now [] = tt
  to_running-Taken now (r ∷ rs) = ground (arith, to_running-Taken now rs)

  row-to_running : (now : ℕ) (r : Run) → Taken (to_running now r)
  unfolding Taken
  row-to_running now r = ground arith

  row-orphaned : (now : ℕ) (r : Run) → Taken (orphaned now r)
  unfolding Taken
  row-orphaned now r = ground arith

  row-finish :
      (final : Final) (count now : ℕ) (r : Run)
      → Taken (record r {
        status = status_of final;
        final_answer = answer_of final;
        error = error_of final;
        checkpoint = none;
        step_count = count;
        heartbeat_at = none;
        finished_at = some now;
      })
  unfolding Taken
  row-finish final count now r = ground arith

  row-cancel : (now : ℕ) (r : Run) → Taken r → Taken (cancel_row now r)
  unfolding Taken cancel_row
  row-cancel now r h = ground arith

  claim-Taken :
      (j : String) (f : From) (now : ℕ) (present : Bool) (table : Table)
      → All Taken table
      → All Taken (claim j f now present table).1
  unfolding claim
  claim-Taken j f now present table h =
      let won =
        update-Taken (claimable j f) (to_running now) table (λ r e k. row-to_running now r) h in
      let lost =
        update-Taken (claimable j f) (orphaned now) table (λ r e k. row-orphaned now r) h in
      ground arith

  cancel-Taken :
      (j workspace_id : String) (now : ℕ) (table : Table)
      → All Taken table
      → All Taken (request_cancel j workspace_id now table).1
  unfolding request_cancel
  cancel-Taken j workspace_id now table h =
      let settled =
        update-Taken (λ r. str_eq r.id j) (cancel_row now) table (λ r e k. row-cancel now r k) h in
      ground arith

  park-Taken :
      (j : String) (saved : Checkpoint) (count : ℕ) (table : Table)
      → reopens from id (parks j saved count) ≡ false
      → All Taken table
      → All Taken (park_for_approval j saved count table)
  unfolding park_for_approval Taken
  park-Taken j saved count table o h =
      update-Taken _ _ table (λ r e k. ground (arith, eq_iff r.id j, eq_iff j id, eq_iff r.id id)) h

  recover-Taken :
      (now stale_after : ℕ) (table : Table)
      → reopens from id (recovers now stale_after) ≡ false
      → All Taken table
      → All Taken (requeue_orphaned_runs now stale_after table)
  unfolding requeue_orphaned_runs Taken
  recover-Taken now stale_after table o h = update-Taken _ _ table (λ r e k. ground arith) h

  insert-Taken :
      (j workspace_id : String) (key : Option String) (now : ℕ) (table : Table)
      → reopens from id (inserts j workspace_id key now) ≡ false
      → All Taken table
      → All Taken (table ++ new_run j workspace_id key now ∷ [])
  unfolding new_run Taken
  insert-Taken j workspace_id key now table o h =
      All-snoc Taken table (new_run j workspace_id key now) h (ground arith)

  commit-Taken :
      (table : Table) (x : Transaction)
      → reopens from id x ≡ false
      → All Taken table
      → All Taken (commit table x)
  unfolding commit heartbeat finish Taken
  commit-Taken table (claims j f now present) o h = claim-Taken j f now present table h
  commit-Taken table (beats j now) o h = update-Taken _ _ table (λ r e k. k) h
  commit-Taken table (parks j saved count) o h = park-Taken j saved count table o h
  commit-Taken table (finishes j final count now) o h =
      update-Taken _ _ table (λ r e k. row-finish final count now r) h
  commit-Taken table (asks_to_cancel j workspace_id now) o h =
      cancel-Taken j workspace_id now table h
  commit-Taken table (recovers now stale_after) o h = recover-Taken now stale_after table o h
  commit-Taken table (inserts j workspace_id key now) o h =
      insert-Taken j workspace_id key now table o h

  commit_all-Taken :
      (table : Table) (xs : List Transaction)
      → All (λ x. reopens from id x ≡ false) xs
      → All Taken table
      → All Taken (commit_all table xs)
  unfolding commit_all
  commit_all-Taken table [] o h = h
  commit_all-Taken table (x ∷ xs) o h =
      commit_all-Taken (commit table x) xs o.1 (commit-Taken table x o.0 h)

  claimed-Taken :
      (now : ℕ) (present : Bool) (table : Table)
      → (claim id from now present table).0 ≡ true
      → All Taken (claim id from now present table).1
  unfolding claim
  claimed-Taken now present table h = ground (arith, to_running-Taken now table)

  Taken-loses :
      (later : ℕ) (present : Bool) (table : Table)
      → All Taken table
      → (claim id from later present table).0 ≡ false
  unfolding claim
  Taken-loses later present table h = ground (arith, Taken-rowcount table h)

-- Once a worker has won the claim of a run, every later claim of the same kind loses, whatever the
-- transactions between the two are, until one of them parks the run, for a resuming claim, or requeues
-- orphans or inserts the run, for a starting one.
pub claim-Exclusive :
    (id : String) (from : From) (now later : ℕ) (present again : Bool) (table : Table)
    (xs : List Transaction)
    → (claim id from now present table).0 ≡ true
    → All (λ x. reopens from id x ≡ false) xs
    → (claim id from later again (commit_all (claim id from now present table).1 xs)).0 ≡ false
claim-Exclusive id from now later present again table xs won o =
    Taken-loses id from later again _
      (commit_all-Taken id from _ xs o (claimed-Taken id from now present table won))
