-- ===== src/Remediation/History.antt =====
-- Any history of guarded changes, confirmations, reverts and sweeps (src/hoursx/remediation).
use hours_x.Prelude.{ℕ, List, [], ◌∷◌, false, Option, none, some, String, ◌≡◌, ◌∙◌, arith}
use hours_x.Ops.{Host, Outcome, done, unsafe, crashed}
use hours_x.Privileges.{SystemPolicy}
use hours_x.Remediation.Conditions.{Floats, Probes}
use hours_x.Remediation.Ledger.{
  ChangeRecord, Ledger, World, find_change, load_change, revert_change, revert_expired_changes,
  is_due, verified,
}
use hours_x.Remediation.Ledger.Invariant.{RowOk, LedgerOk, revert-LedgerOk, sweep-LedgerOk}
use hours_x.Remediation.Guard.{GuardOutcome, Call, apply_guarded, confirm_change}
use hours_x.Remediation.Guard.Keeps.{LeavesAlone, apply_guarded-LedgerOk, confirm-LedgerOk}
use hours_x.Remediation.Guard.Status.{Agrees, IsTracked, apply_guarded-Agrees}

module _ (floats : Floats) (host : Host) (probes : host.State → Probes floats)
    (meanwhile : ℕ → World host → World host)
    (keeps : (s : ℕ) (w : World host) → LedgerOk w.ledger → LedgerOk (meanwhile s w).ledger) where
  pub data Operation : Type 0 where
    guard : Call floats → Operation
    confirm : String → String → ℕ → Operation
    -- `change.revert`: the row is loaded, then reverted.
    revert : SystemPolicy → String → String → ℕ → Operation
    sweep : SystemPolicy → ℕ → Operation

  revert_loaded : SystemPolicy → ℕ → World host → Option ChangeRecord → World host
  revert_loaded policy now w none = w
  revert_loaded policy now w (some r) = (revert_change host policy now w r).1

  unfoldable pub perform : World host → Operation → World host
  unfolding revert_loaded
  perform w (guard c) = (apply_guarded floats host probes meanwhile c w).1
  perform w (confirm id workspace now) =
      (confirm_change floats host probes meanwhile id workspace now w).1
  perform w (revert policy id workspace now) =
      revert_loaded policy now w (load_change host w id workspace)
  perform w (sweep policy now) = (revert_expired_changes host policy now w).1

  unfoldable pub perform_all : World host → List Operation → World host
  perform_all w [] = w
  perform_all w (op ∷ ops) = perform_all (perform w op) ops

  revert_loaded-LedgerOk :
      (policy : SystemPolicy) (now : ℕ) (w : World host) (r : Option ChangeRecord)
      → LedgerOk w.ledger
      → LedgerOk (revert_loaded policy now w r).ledger
  unfolding revert_loaded
  revert_loaded-LedgerOk policy now w none l = l
  revert_loaded-LedgerOk policy now w (some r) l = revert-LedgerOk host policy now w r l

  perform-LedgerOk :
      (w : World host) (op : Operation) → LedgerOk w.ledger → LedgerOk (perform w op).ledger
  unfolding perform
  perform-LedgerOk w (guard c) l = apply_guarded-LedgerOk floats host probes meanwhile keeps c w l
  perform-LedgerOk w (confirm id workspace now) l =
      confirm-LedgerOk floats host probes meanwhile id workspace now w l
  perform-LedgerOk w (revert policy id workspace now) l =
      revert_loaded-LedgerOk policy now w (load_change host w id workspace) l
  perform-LedgerOk w (sweep policy now) l = sweep-LedgerOk host policy now w l

  -- Let a deadline stand only on changes of the ledger that are applied and revertible, and let
  -- what happens to the ledger while a guarded change waits keep this so, as confirmations, reverts and
  -- sweeps do. So it is after every history of guarded changes, confirmations, reverts and sweeps, crashes
  -- included.
  pub perform_all-LedgerOk :
      (w : World host) (ops : List Operation)
      → LedgerOk w.ledger
      → LedgerOk (perform_all w ops).ledger
  unfolding perform_all
  perform_all-LedgerOk w [] l = l
  perform_all-LedgerOk w (op ∷ ops) l =
      perform_all-LedgerOk (perform w op) ops (perform-LedgerOk w op l)

  found-RowOk :
      (id : String) (ledger : Ledger) (r : ChangeRecord)
      → LedgerOk ledger
      → find_change id ledger ≡ some r
      → RowOk r
  unfolding find_change
  found-RowOk id [] r l f = cc
  found-RowOk id (x ∷ xs) r l f = ground (arith, found-RowOk id xs r l.1)

  not_due : (now : ℕ) (r : ChangeRecord) → r.status ≡ verified → is_due host now r ≡ false
  unfolding is_due
  not_due now r h = ground arith

  agreed :
      (id : String) (result : Outcome (GuardOutcome floats) × World host) (o : GuardOutcome floats)
      → Agrees floats host probes meanwhile id result
      → result.0 ≡ done o
      → (r : ChangeRecord) × (find_change id result.1.ledger ≡ some r) × (r.status ≡ o.status)
  agreed id (done o', w) o (r, f, s) e = (r, f, ground arith)
  agreed id (unsafe, w) o a e = cc
  agreed id (crashed, w) o a e = cc

  no_deadline : (r : ChangeRecord) → RowOk r → r.status ≡ verified → r.expires_at ≡ none
  no_deadline r ok h = ground arith

  -- Let a deadline stand only on changes of the ledger that are applied and revertible. A
  -- change of a new id, given conditions or able to be undone, that is reported as verified has lost
  -- the deadline that was asked for it: its row has none, and no later sweep finds it due.
  pub verified_disarms :
      (c : Call floats) (w : World host) (o : GuardOutcome floats)
      → LedgerOk w.ledger
      → IsTracked floats host probes meanwhile c
      → LeavesAlone floats host probes meanwhile c.change.id
      → find_change c.change.id w.ledger ≡ none
      → (apply_guarded floats host probes meanwhile c w).0 ≡ done o
      → o.status ≡ verified
      → (r : ChangeRecord) × (find_change c.change.id
            (apply_guarded floats host probes meanwhile c w).1.ledger
          ≡ some r)
        × (r.expires_at ≡ none)
        × ((later : ℕ) → is_due host later r ≡ false)
  verified_disarms c w o l tracked alone fresh e st =
      let after = apply_guarded floats host probes meanwhile c w in
      let (r, f, s) =
        agreed c.change.id after o
          (apply_guarded-Agrees floats host probes meanwhile c w tracked alone fresh) e in
      let ok =
        found-RowOk c.change.id after.1.ledger r
          (apply_guarded-LedgerOk floats host probes meanwhile keeps c w l) f in
      (r, f, no_deadline r ok (s ∙ st), λ later. not_due later r (s ∙ st))
