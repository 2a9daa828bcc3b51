-- ===== src/Remediation/Guard/Keeps.antt =====
-- `apply_guarded` and `confirm_change` (src/hoursx/remediation/guard.py) keep the ledger's invariant.
use hours_x.Prelude.{
  ℕ, List, [], ◌∷◌, min, Bool, true, false, Option, none, some, String, ◌≡◌, refl, ◌∙◌, arith,
  Bool-cases, inl, inr, non_empty,
}
use hours_x.Ops.{Host, Outcome, done, unsafe, crashed}
use hours_x.Remediation.Conditions.{Floats, Probes, Condition, ConditionResult}
use hours_x.Remediation.Ledger.{
  ChangeRecord, ChangeStatus, Ledger, RevertOutcome, World, find_change, load_change, revert_change,
  is_revertible, new_record, confirmed, reverted, verified, unrevertible,
}
use hours_x.Remediation.Ledger.Rows.{find-record}
use hours_x.Remediation.Ledger.Invariant.{
  LedgerOk, update-LedgerOk, record-LedgerOk, revert-LedgerOk,
}
use hours_x.Remediation.Guard.{
  Call, recorded, read_conditions, max_settle_seconds, settle_row, apply_guarded, after_prior,
  after_apply, verify_change, revert_row, after_revert, settle, clamp_window, read_prior_state,
  after_settling, confirm_change, confirm_row,
}

module _ (floats : Floats) (host : Host) (probes : host.State → Probes floats)
    (meanwhile : ℕ → World host → World host) where
  settle-LedgerOk :
      (c : Call floats) (status : ChangeStatus) (w : World host)
      → LedgerOk w.ledger
      → LedgerOk (settle floats host probes meanwhile c status w).ledger
  unfolding settle
  settle-LedgerOk c status w l =
      update-LedgerOk c.change.id (settle_row status c.now) w.ledger (λ _. tt) l

  after_revert-LedgerOk :
      (c : Call floats) (results : List (ConditionResult floats))
      (result : Outcome RevertOutcome × World host)
      → LedgerOk result.1.ledger
      → LedgerOk (after_revert floats host probes meanwhile c results result).1.ledger
  unfolding after_revert
  after_revert-LedgerOk c results (done r, w) l = l
  after_revert-LedgerOk c results (unsafe, w) l = l
  after_revert-LedgerOk c results (crashed, w) l = l

  revert_row-LedgerOk :
      (c : Call floats) (results : List (ConditionResult floats)) (w : World host)
      (r : Option ChangeRecord)
      → LedgerOk w.ledger
      → LedgerOk (revert_row floats host probes meanwhile c results w r).1.ledger
  unfolding revert_row
  revert_row-LedgerOk c results w none l = l
  revert_row-LedgerOk c results w (some r) l =
      after_revert-LedgerOk c results (revert_change host c.policy c.now w r)
        (revert-LedgerOk host c.policy c.now w r l)

  -- What happens in the meantime keeps the invariant, as every operation on the ledger does.
  module _
      (keeps : (s : ℕ) (w : World host) → LedgerOk w.ledger → LedgerOk (meanwhile s w).ledger) where
    read-LedgerOk :
        (w : World host) (cs : List (Condition floats))
        → LedgerOk w.ledger
        → LedgerOk (read_conditions floats host probes meanwhile w cs).1.ledger
    unfolding read_conditions
    read-LedgerOk w [] l = l
    read-LedgerOk w (c ∷ cs) l = read-LedgerOk (meanwhile 0 w) cs (keeps 0 w l)

    verify-LedgerOk :
        (c : Call floats) (can : Bool) (w : World host)
        → LedgerOk w.ledger
        → LedgerOk (verify_change floats host probes meanwhile c can w).1.ledger
    unfolding verify_change
    verify-LedgerOk c can w l =
        let (results, after) = read_conditions floats host probes meanwhile w c.conditions in
        let kept = read-LedgerOk w c.conditions l in
        ground (
          arith,
          settle-LedgerOk c verified after kept,
          settle-LedgerOk c unrevertible after kept,
          revert_row-LedgerOk c results after (find_change c.change.id after.ledger) kept,
        )

    after_apply-LedgerOk :
        (c : Call floats) (ledger : Ledger) (result : Outcome Bool × host.State)
        → LedgerOk ledger
        → LedgerOk (after_apply floats host probes meanwhile c ledger result).1.ledger
    unfolding after_apply after_settling
    after_apply-LedgerOk c ledger (done true, h) l = elim (Bool-cases (non_empty c.conditions)) [
      | inl asked ↦ rw asked (
          verify-LedgerOk c (is_revertible c.change.kind c.change.new_value) _ (
            keeps (min c.settle_seconds max_settle_seconds) (record { at = h; ledger = ledger }) l))
      | inr none_asked ↦ rw none_asked l
    ]
    after_apply-LedgerOk c ledger (done false, h) l =
        settle-LedgerOk c reverted (record { at = h; ledger = ledger }) l
    after_apply-LedgerOk c ledger (unsafe, h) l =
        settle-LedgerOk c reverted (record { at = h; ledger = ledger }) l
    after_apply-LedgerOk c ledger (crashed, h) l = l

    recorded-LedgerOk :
        (c : Call floats) (previous : Option String) (w : World host)
        → LedgerOk w.ledger
        → LedgerOk (recorded floats host probes meanwhile c previous w).ledger
    unfolding recorded
    recorded-LedgerOk c previous w l = keeps 0 _ (
        record-LedgerOk (meanwhile 0 w).ledger c.change previous c.now
          (clamp_window c.revert_after_seconds) (keeps 0 w l))

    after_prior-LedgerOk :
        (c : Call floats) (ledger : Ledger) (result : Outcome (Option String) × host.State)
        → LedgerOk ledger
        → LedgerOk (after_prior floats host probes meanwhile c ledger result).1.ledger
    unfolding after_prior
    after_prior-LedgerOk c ledger (done previous, h) l =
        after_apply-LedgerOk c _ _
          (recorded-LedgerOk c previous (record { at = h; ledger = ledger }) l)
    after_prior-LedgerOk c ledger (unsafe, h) l = l
    after_prior-LedgerOk c ledger (crashed, h) l = l

    pub apply_guarded-LedgerOk :
        (c : Call floats) (w : World host)
        → LedgerOk w.ledger
        → LedgerOk (apply_guarded floats host probes meanwhile c w).1.ledger
    unfolding apply_guarded
    apply_guarded-LedgerOk c w l =
        after_prior-LedgerOk c w.ledger
          (read_prior_state floats host probes meanwhile c.policy w.at c.change.kind
            c.change.target)
          l

  -- Nobody else confirms, reverts or sweeps the row of this id in the meantime.
  abbrev pub LeavesAlone : String → Type 0
  LeavesAlone id =
      (s : ℕ) (w : World host) → find_change id (meanwhile s w).ledger ≡ find_change id w.ledger

  pub find-read_conditions :
      (id : String) (w : World host) (cs : List (Condition floats))
      → LeavesAlone id
      → find_change id (read_conditions floats host probes meanwhile w cs).1.ledger
        ≡ find_change id w.ledger
  unfolding read_conditions
  find-read_conditions id w [] alone = refl
  find-read_conditions id w (c ∷ cs) alone =
      find-read_conditions id (meanwhile 0 w) cs alone ∙ alone 0 w

  pub find-recorded :
      (c : Call floats) (previous : Option String) (w : World host)
      → LeavesAlone c.change.id
      → find_change c.change.id w.ledger ≡ none
      → find_change c.change.id (recorded floats host probes meanwhile c previous w).ledger
        ≡ some (new_record c.change previous c.now (clamp_window c.revert_after_seconds))
  unfolding recorded
  find-recorded c previous w alone fresh =
      alone 0 _
      ∙ find-record (meanwhile 0 w).ledger c.change previous c.now
          (clamp_window c.revert_after_seconds) (alone 0 w ∙ fresh)

  confirm_row-LedgerOk :
      (id : String) (now : ℕ) (w : World host) (r : Option ChangeRecord)
      → LedgerOk w.ledger
      → LedgerOk (confirm_row floats host probes meanwhile id now w r).1.ledger
  unfolding confirm_row
  confirm_row-LedgerOk id now w none l = l
  confirm_row-LedgerOk id now w (some r) l =
      ground (arith, update-LedgerOk id (settle_row confirmed now) w.ledger (λ _. tt) l)

  pub confirm-LedgerOk :
      (id workspace : String) (now : ℕ) (w : World host)
      → LedgerOk w.ledger
      → LedgerOk (confirm_change floats host probes meanwhile id workspace now w).1.ledger
  unfolding confirm_change
  confirm-LedgerOk id workspace now w l =
      confirm_row-LedgerOk id now w (load_change host w id workspace) l
