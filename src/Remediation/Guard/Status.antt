-- ===== src/Remediation/Guard/Status.antt =====
-- What `apply_guarded` (src/hoursx/remediation/guard.py) reports and what its ledger row says.
use hours_x.Prelude.{
  ℕ, List, [], min, ◌∙◌, Bool, true, false, Option, none, some, String, ◌≡◌, refl, sym, subst, ◌⊎◌,
  inl, inr, arith, Bool-cases, non_empty,
}
use hours_x.Ops.{Host, Outcome, done, unsafe, crashed}
use hours_x.Remediation.Conditions.{Floats, Probes, all_met, ConditionResult}
use hours_x.Remediation.Ledger.{
  ChangeStatus, applied, verified, reverted, unrevertible, ChangeRecord, Ledger, RevertOutcome,
  World, find_change, is_revertible, new_record, revert_change, revert_status, settle_revert,
}
use hours_x.Remediation.Ledger.Reverts.{revert_row_settled}
use hours_x.Remediation.Ledger.Rows.{find-update}
use hours_x.Remediation.Guard.Keeps.{LeavesAlone, find-read_conditions, find-recorded}
use hours_x.Remediation.Guard.{
  GuardOutcome, Call, read_conditions, max_settle_seconds, settle_row, apply_guarded, after_prior,
  after_apply, verify_change, revert_row, after_revert, settle, outcome, clamp_window,
  read_prior_state, after_settling,
}

module _ (floats : Floats) (host : Host) (probes : host.State → Probes floats)
    (meanwhile : ℕ → World host → World host) where
  abbrev Result : Type 0
  Result = Outcome (GuardOutcome floats) × World host

  -- The row that the change's id finds has the reported status.
  abbrev pub Agrees : String → Outcome (GuardOutcome floats) × World host → Type 0
  Agrees id (done o, w) =
      (r : ChangeRecord) × (find_change id w.ledger ≡ some r) × (r.status ≡ o.status)
  Agrees id (unsafe, w) = Unit {0}
  Agrees id (crashed, w) = Unit {0}

  settle-Agrees :
      (c : Call floats) (status : ChangeStatus) (w : World host) (r : ChangeRecord) (ok : Bool)
      (results : List (ConditionResult floats))
      → find_change c.change.id w.ledger ≡ some r
      → Agrees c.change.id (
        outcome floats host probes meanwhile c ok status results,
        settle floats host probes meanwhile c status w,
      )
  unfolding outcome settle
  settle-Agrees c status w r ok results h = (
    settle_row status c.now r,
    find-update c.change.id (settle_row status c.now) w.ledger r (λ _. refl) h,
    refl,
  )

  new_row : Call floats → Option String → ChangeRecord
  new_row c previous = new_record c.change previous c.now (clamp_window c.revert_after_seconds)

  after_revert-Agrees :
      (c : Call floats) (results : List (ConditionResult floats)) (id : String) (r : ChangeRecord)
      (result : Outcome RevertOutcome × World host)
      → ((o : RevertOutcome)
          → result.0 ≡ done o
          → (o.status ≡ revert_status o.ok)
            × (find_change id result.1.ledger ≡ some (settle_revert o.ok c.now r)))
      → Agrees id (after_revert floats host probes meanwhile c results result)
  unfolding after_revert outcome
  after_revert-Agrees c results id r (done o, w) h =
      (settle_revert o.ok c.now r, (h o refl).1, ground arith)
  after_revert-Agrees c results id r (unsafe, w) h = tt
  after_revert-Agrees c results id r (crashed, w) h = tt

  revert-Agrees :
      (c : Call floats) (results : List (ConditionResult floats)) (w : World host)
      (r : ChangeRecord)
      → r.id ≡ c.change.id
      → find_change c.change.id w.ledger ≡ some r
      → r.status ≡ applied
      → r.revertible ≡ true
      → Agrees c.change.id
          (revert_row floats host probes meanwhile c results w (find_change c.change.id w.ledger))
  unfolding revert_row
  revert-Agrees c results w r i f a v =
      let known : find_change r.id w.ledger ≡ some r =
        subst (λ id. find_change id w.ledger ≡ some r) (sym i) f in
      rw f (
        subst
          (λ id. Agrees id (
            after_revert floats host probes meanwhile c results
              (revert_change host c.policy c.now w r)))
          i
          (after_revert-Agrees c results r.id r (revert_change host c.policy c.now w r)
            (λ o. revert_row_settled host c.policy c.now w r a v o known)))

  verify-Agrees :
      (c : Call floats) (w : World host) (r : ChangeRecord) (can : Bool)
      → r.id ≡ c.change.id
      → find_change c.change.id w.ledger ≡ some r
      → LeavesAlone floats host probes meanwhile c.change.id
      → (can ≡ true → (r.status ≡ applied) × (r.revertible ≡ true))
      → Agrees c.change.id (verify_change floats host probes meanwhile c can w)
  unfolding verify_change
  verify-Agrees c w r can i f alone fresh =
      let (results, after) = read_conditions floats host probes meanwhile w c.conditions in
      let known : find_change c.change.id after.ledger ≡ some r =
        find-read_conditions floats host probes meanwhile c.change.id w c.conditions alone ∙ f in
      elim (Bool-cases (all_met floats results)) [
        | inl held ↦ rw held (settle-Agrees c verified after r true results known)
        | inr missed ↦ elim (Bool-cases can) [
          | inl revertible ↦
              rw (missed, revertible)
                (revert-Agrees c results after r i known (fresh revertible).0 (fresh revertible).1)
          | inr not_revertible ↦
              rw (missed, not_revertible) (settle-Agrees c unrevertible after r false results known)
        ]
      ]

  -- The change asks for verification, or can be undone.
  abbrev pub IsTracked : Call floats → Type 0
  IsTracked c =
      (non_empty c.conditions ≡ true) ⊎ (is_revertible c.change.kind c.change.new_value ≡ true)

  new_row_fresh :
      (c : Call floats) (previous : Option String)
      → is_revertible c.change.kind c.change.new_value ≡ true
      → ((new_row c previous).status ≡ applied) × ((new_row c previous).revertible ≡ true)
  unfolding new_row new_record
  new_row_fresh c previous h = ground arith

  new_row_id : (c : Call floats) (previous : Option String) → (new_row c previous).id ≡ c.change.id
  unfolding new_row new_record
  new_row_id c previous = refl

  still_applied :
      (c : Call floats) (previous : Option String)
      → IsTracked c
      → non_empty c.conditions ≡ false
      → (new_row c previous).status ≡ applied
  still_applied c previous (inl asked) h = cc
  still_applied c previous (inr can) h = (new_row_fresh c previous can).0

  after_apply-Agrees :
      (c : Call floats) (ledger : Ledger) (previous : Option String)
      (result : Outcome Bool × host.State)
      → IsTracked c
      → LeavesAlone floats host probes meanwhile c.change.id
      → find_change c.change.id ledger ≡ some (new_row c previous)
      → Agrees c.change.id (after_apply floats host probes meanwhile c ledger result)
  unfolding after_apply after_settling outcome
  after_apply-Agrees c ledger previous (done true, h) tracked alone f =
      elim (Bool-cases (non_empty c.conditions)) [
        | inl asked ↦ rw asked (
            verify-Agrees c _ (new_row c previous) (is_revertible c.change.kind c.change.new_value)
              (new_row_id c previous)
              (alone (min c.settle_seconds max_settle_seconds) (record { at = h; ledger = ledger })
                ∙ f)
              alone (new_row_fresh c previous))
        | inr none_asked ↦
            rw none_asked (new_row c previous, f, still_applied c previous tracked none_asked)
      ]
  after_apply-Agrees c ledger previous (done false, h) tracked alone f =
      settle-Agrees c reverted (record { at = h; ledger = ledger }) (new_row c previous) false [] f
  after_apply-Agrees c ledger previous (unsafe, h) tracked alone f =
      settle-Agrees c reverted (record { at = h; ledger = ledger }) (new_row c previous) false [] f
  after_apply-Agrees c ledger previous (crashed, h) tracked alone f = tt

  after_prior-Agrees :
      (c : Call floats) (ledger : Ledger) (result : Outcome (Option String) × host.State)
      → IsTracked c
      → LeavesAlone floats host probes meanwhile c.change.id
      → find_change c.change.id ledger ≡ none
      → Agrees c.change.id (after_prior floats host probes meanwhile c ledger result)
  unfolding after_prior new_row
  after_prior-Agrees c ledger (done previous, h) tracked alone f =
      after_apply-Agrees c _ previous _ tracked alone (
        find-recorded floats host probes meanwhile c previous (record { at = h; ledger = ledger })
          alone f)
  after_prior-Agrees c ledger (unsafe, h) tracked alone f = tt
  after_prior-Agrees c ledger (crashed, h) tracked alone f = tt

  -- Let nobody else touch the row of a change while the guard is at it. Whatever else happens in the
  -- meantime, to the host and to the other rows, when `apply_guarded` returns, the ledger holds a row for
  -- the change, and the row has the status that the outcome reports, provided that the change is given
  -- conditions or can be undone and its id is new.
  pub apply_guarded-Agrees :
      (c : Call floats) (w : World host)
      → IsTracked c
      → LeavesAlone floats host probes meanwhile c.change.id
      → find_change c.change.id w.ledger ≡ none
      → Agrees c.change.id (apply_guarded floats host probes meanwhile c w)
  unfolding apply_guarded
  apply_guarded-Agrees c w tracked alone f =
      after_prior-Agrees c w.ledger
        (read_prior_state floats host probes meanwhile c.policy w.at c.change.kind c.change.target)
        tracked alone f
