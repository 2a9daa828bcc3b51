-- ===== src/Remediation/Guard.antt =====
-- src/hoursx/remediation/guard.py: a change applied under verification. What becomes of the host and of the
-- ledger while the guard waits, by itself or by other tasks, is the function `meanwhile` of the seconds that
-- it sleeps, 0 for an await without a sleep; events, metrics and summaries are left out.
pub mod Status
pub mod Restore
pub mod Keeps
use hours_x.Prelude.{
  ℕ, suc, min, max, List, [], ◌∷◌, ◌++◌, Bool, true, false, not, Option, none, some, String, str_eq,
  ◌==◌, non_empty, if◌then◌else◌,
}
use hours_x.Prelude.Text.{strip}
use hours_x.Ops.{
  Host, OpResult, Outcome, done, unsafe, crashed, read_sysctl, write_sysctl, manage_service,
}
use hours_x.Privileges.{SystemPolicy}
use hours_x.Remediation.Conditions.{
  Floats, Probes, Condition, ConditionResult, evaluate_conditions, all_met,
}
use hours_x.Remediation.Ledger.{
  ChangeKind, sysctl, service, ChangeStatus, applied, verified, confirmed, reverted, revert_failed,
  unrevertible, ChangeRecord, Ledger, Change, RevertOutcome, World, find_change, update_change,
  is_revertible, new_record, record_change, revert_change, load_change, ok_of,
}

abbrev pub max_settle_seconds : ℕ
max_settle_seconds = 60

abbrev pub max_revert_after_seconds : ℕ
max_revert_after_seconds = 3600

-- A window that is zero counts as none.
unfoldable pub clamp_window : Option ℕ → Option ℕ
clamp_window none = none
clamp_window (some seconds) =
    if seconds == 0 then none else some (max 1 (min seconds max_revert_after_seconds))

abbrev pub settle_row : ChangeStatus → ℕ → ChangeRecord → ChangeRecord
settle_row status now r = record r { status = status; expires_at = none; settled_at = some now }

module _ (floats : Floats) where
  pub record GuardOutcome : Type 0 where
    pub ok : Bool
    pub change_id : String
    pub status : ChangeStatus
    pub results : List (ConditionResult floats)

  -- One call of `apply_guarded`.
  pub record Call : Type 0 where
    pub policy : SystemPolicy
    pub change : Change
    pub conditions : List (Condition floats)
    pub settle_seconds : ℕ
    pub revert_after_seconds : Option ℕ
    pub now : ℕ

module _ (floats : Floats) (host : Host) (probes : host.State → Probes floats)
    (meanwhile : ℕ → World host → World host) where
  open host use {State}

  or_none : String → Option String
  or_none s = if str_eq s "" then none else some s

  prior_output : Outcome OpResult × State → Outcome (Option String) × State
  unfolding or_none
  prior_output (done r, h) = (done (or_none (strip r.output)), h)
  prior_output (unsafe, h) = (done none, h)
  prior_output (crashed, h) = (crashed, h)

  prior_of : SystemPolicy → State → ChangeKind → String → Outcome (Option String) × State
  unfolding prior_output
  prior_of policy h sysctl target = (done (read_sysctl host h target), h)
  prior_of policy h service target = prior_output (manage_service host policy h target "is-active")

  unfoldable pub read_prior_state :
      SystemPolicy → State → ChangeKind → String → Outcome (Option String) × State
  unfolding prior_of
  read_prior_state policy h kind target = prior_of policy h kind target

  apply_kind : SystemPolicy → State → ChangeKind → String → String → Outcome Bool × State
  apply_kind policy h sysctl target value = ok_of host (write_sysctl host policy h target value)
  apply_kind policy h service target value = ok_of host (manage_service host policy h target value)

  unfoldable pub apply_change : SystemPolicy → State → Change → Outcome Bool × State
  unfolding apply_kind
  apply_change policy h c = apply_kind policy h c.kind c.target c.new_value

  outcome :
      Call floats
      → Bool
      → ChangeStatus
      → List (ConditionResult floats)
      → Outcome (GuardOutcome floats)
  outcome c ok status results =
      done (record { ok = ok; change_id = c.change.id; status = status; results = results })

  settle : Call floats → ChangeStatus → World host → World host
  settle c status w = record w {
    ledger = update_change c.change.id (settle_row status c.now) w.ledger;
  }

  after_revert :
      Call floats
      → List (ConditionResult floats)
      → Outcome RevertOutcome × World host
      → Outcome (GuardOutcome floats) × World host
  unfolding outcome
  after_revert c results (done r, w) =
      (outcome c false (if r.ok then reverted else revert_failed) results, w)
  after_revert c results (unsafe, w) = (unsafe, w)
  after_revert c results (crashed, w) = (crashed, w)

  -- `db.get(ChangeRecord, change_id)`, which is asserted to be there.
  revert_row :
      Call floats
      → List (ConditionResult floats)
      → World host
      → Option ChangeRecord
      → Outcome (GuardOutcome floats) × World host
  unfolding after_revert
  revert_row c results w none = (crashed, w)
  revert_row c results w (some r) = after_revert c results (revert_change host c.policy c.now w r)

  -- The conditions are observed one after the other, with an await between.
  unfoldable pub read_conditions :
      World host → List (Condition floats) → List (ConditionResult floats) × World host
  read_conditions w [] = ([], w)
  read_conditions w (c ∷ cs) =
      let (results, after) = read_conditions (meanwhile 0 w) cs in
      (evaluate_conditions floats (probes w.at) (c ∷ []) ++ results, after)

  -- Steps 5 and 6: the conditions are evaluated, and a change that misses is undone.
  unfoldable pub verify_change :
      Call floats → Bool → World host → Outcome (GuardOutcome floats) × World host
  unfolding outcome settle revert_row
  verify_change c can_revert w =
      let (results, after) = read_conditions w c.conditions in
      if all_met floats results
      then (outcome c true verified results, settle c verified after)
      else if not can_revert
      then (outcome c false unrevertible results, settle c unrevertible after)
      else revert_row c results after (find_change c.change.id after.ledger)

  unfoldable pub after_settling : Call floats → World host → World host
  after_settling c w = meanwhile (min c.settle_seconds max_settle_seconds) w

  after_apply :
      Call floats → Ledger → Outcome Bool × State → Outcome (GuardOutcome floats) × World host
  unfolding outcome settle after_settling
  after_apply c ledger (done true, h) =
      let w : World host = record { at = h; ledger = ledger } in
      if non_empty c.conditions
      then verify_change c (is_revertible c.change.kind c.change.new_value) (after_settling c w)
      else (outcome c true applied [], w)
  after_apply c ledger (done false, h) =
      (outcome c false reverted [], settle c reverted (record { at = h; ledger = ledger }))
  after_apply c ledger (unsafe, h) =
      (outcome c false reverted [], settle c reverted (record { at = h; ledger = ledger }))
  after_apply c ledger (crashed, h) = (crashed, record { at = h; ledger = ledger })

  -- The row is written before the host is touched.
  unfoldable pub recorded : Call floats → Option String → World host → World host
  recorded c previous w =
      let before = meanwhile 0 w in
      meanwhile 0 (record before {
        ledger =
            record_change before.ledger c.change previous c.now
              (clamp_window c.revert_after_seconds);
      })

  after_prior :
      Call floats
      → Ledger
      → Outcome (Option String) × State
      → Outcome (GuardOutcome floats) × World host
  unfolding after_apply recorded
  after_prior c ledger (done previous, h) =
      let w = recorded c previous (record { at = h; ledger = ledger }) in
      after_apply c w.ledger (apply_change c.policy w.at c.change)
  after_prior c ledger (unsafe, h) = (unsafe, record { at = h; ledger = ledger })
  after_prior c ledger (crashed, h) = (crashed, record { at = h; ledger = ledger })

  unfoldable pub apply_guarded :
      Call floats → World host → Outcome (GuardOutcome floats) × World host
  unfolding after_prior
  apply_guarded c w =
      after_prior c w.ledger (read_prior_state c.policy w.at c.change.kind c.change.target)

  -- Whether a revert, tried or done, settled the row.
  is_reverted : ChangeStatus → Bool
  is_reverted reverted = true
  is_reverted revert_failed = true
  is_reverted _ = false

  confirm_row :
      String → ℕ → World host → Option ChangeRecord → Option (GuardOutcome floats) × World host
  unfolding is_reverted
  confirm_row change_id now w none = (none, w)
  confirm_row change_id now w (some r) =
      if is_reverted r.status
      then (some (record { ok = false; change_id = change_id; status = r.status; results = [] }), w)
      else (
        some (record { ok = true; change_id = change_id; status = confirmed; results = [] }),
        record w { ledger = update_change change_id (settle_row confirmed now) w.ledger },
      )

  -- `none` is the `NotFoundError`.
  unfoldable pub confirm_change :
      String → String → ℕ → World host → Option (GuardOutcome floats) × World host
  unfolding confirm_row
  confirm_change change_id workspace_id now w =
      confirm_row change_id now w (load_change host w change_id workspace_id)
