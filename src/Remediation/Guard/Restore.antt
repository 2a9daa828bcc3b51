-- ===== src/Remediation/Guard/Restore.antt =====
-- A guarded sysctl change (src/hoursx/remediation/guard.py) that misses its post-conditions leaves
-- the key as it was; one that meets them has every condition confirmed.
use hours_x.Prelude.{
  ℕ, List, [], ◌∷◌, ◌++◌, ◌∙◌, Bool, true, false, Option, none, some, String, ◌≡◌, ◌≢◌, refl, sym,
  subst, min, arith, Bool-cases, inl, inr, non_empty, str_eq, All,
}
use hours_x.Ops.{Host, Outcome, done, unsafe, crashed, read_sysctl}
use hours_x.Ops.Envelope.{KeepsWrites}
use hours_x.Remediation.Conditions.{
  Floats, Probes, Condition, evaluate_conditions, all_met, ConditionResult,
}
use hours_x.Remediation.Conditions.FailSafe.{Confirmed, all_met_iff}
use hours_x.Remediation.Ledger.{
  sysctl, applied, verified, reverted, ChangeRecord, Ledger, RevertOutcome, World, find_change,
  is_revertible, new_record, revert_change,
}
use hours_x.Remediation.Ledger.Reverts.{revert_restores}
use hours_x.Remediation.Guard.Keeps.{LeavesAlone, find-read_conditions, find-recorded}
use hours_x.Remediation.Guard.{
  GuardOutcome, Call, read_conditions, recorded, apply_guarded, after_prior, after_apply,
  verify_change, revert_row, after_revert, settle, outcome, clamp_window, read_prior_state,
  prior_of, apply_change, after_settling, max_settle_seconds,
}

module _ (floats : Floats) (host : Host) (probes : host.State → Probes floats)
    (meanwhile : ℕ → World host → World host) where
  -- A reported revert of a change that was evaluated has restored the key.
  abbrev Restores : String → String → Outcome (GuardOutcome floats) × World host → Type 0
  Restores target v result =
      (o : GuardOutcome floats)
      → result.0 ≡ done o
      → o.status ≡ reverted
      → non_empty o.results ≡ true
      → read_sysctl host result.1.at target ≡ some v

  module _ (c : Call floats) (v : String) (is_sysctl : c.change.kind ≡ sysctl)
      (direct : str_eq c.policy.backend "helper" ≡ false) (keeps : KeepsWrites host v)
      (text : v ≢ "") (alone : LeavesAlone floats host probes meanwhile c.change.id) where
    row : ChangeRecord
    row = new_record c.change (some v) c.now (clamp_window c.revert_after_seconds)

    row_fields :
        (row.kind ≡ sysctl)
        × (row.previous_value ≡ some v)
        × (row.status ≡ applied)
        × (row.revertible ≡ true)
        × (row.target ≡ c.change.target)
    unfolding row new_record is_revertible
    row_fields = (is_sysctl, refl, ground arith, ground arith, refl)

    can_revert : is_revertible c.change.kind c.change.new_value ≡ true
    unfolding is_revertible
    can_revert = ground arith

    after_revert-Restores :
        (results : List (ConditionResult floats)) (result : Outcome RevertOutcome × World host)
        → ((o : RevertOutcome)
            → result.0 ≡ done o
            → o.ok ≡ true
            → read_sysctl host result.1.at c.change.target ≡ some v)
        → Restores c.change.target v (after_revert floats host probes meanwhile c results result)
    unfolding after_revert outcome
    after_revert-Restores results (done r, w) reads o e st res = reads r refl (ground arith)
    after_revert-Restores results (unsafe, w) reads o e st res = cc
    after_revert-Restores results (crashed, w) reads o e st res = cc

    revert-Restores :
        (results : List (ConditionResult floats)) (w : World host)
        → Restores c.change.target v
            (revert_row floats host probes meanwhile c results w (some row))
    unfolding revert_row
    revert-Restores results w =
        let (k, p, a, r, t) = row_fields in
        after_revert-Restores results (revert_change host c.policy c.now w row) (λ o e ok.
          subst
            (λ target.
              read_sysctl host (revert_change host c.policy c.now w row).1.at target ≡ some v)
            t (revert_restores host c.policy c.now w row a r v o k p direct keeps text e ok))

    verify-Restores :
        (w : World host)
        → find_change c.change.id w.ledger ≡ some row
        → Restores c.change.target v (
            verify_change floats host probes meanwhile c
              (is_revertible c.change.kind c.change.new_value)
              w)
    unfolding verify_change outcome
    verify-Restores w f =
        let (results, after) = read_conditions floats host probes meanwhile w c.conditions in
        let known : find_change c.change.id after.ledger ≡ some row =
          find-read_conditions floats host probes meanwhile c.change.id w c.conditions alone ∙ f in
        elim (Bool-cases (all_met floats results)) [
          | inl held ↦ rw held (λ o e st res. ground arith)
          | inr missed ↦ rw (missed, can_revert, known) (revert-Restores results after)
        ]

    after_apply-Restores :
        (ledger : Ledger) (result : Outcome Bool × host.State)
        → find_change c.change.id ledger ≡ some row
        → Restores c.change.target v (after_apply floats host probes meanwhile c ledger result)
    unfolding after_apply outcome after_settling
    after_apply-Restores ledger (done true, h) f = elim (Bool-cases (non_empty c.conditions)) [
      | inl asked ↦ rw asked (
          verify-Restores _ (
            alone (min c.settle_seconds max_settle_seconds) (record { at = h; ledger = ledger })
            ∙ f))
      | inr none_asked ↦ rw none_asked (λ o e st res. ground arith)
    ]
    after_apply-Restores ledger (done false, h) f = λ o e st res. ground arith
    after_apply-Restores ledger (unsafe, h) f = λ o e st res. ground arith
    after_apply-Restores ledger (crashed, h) f = λ o e st res. cc

    reads_prior :
        (w : World host)
        → read_sysctl host w.at c.change.target ≡ some v
        → read_prior_state floats host probes meanwhile c.policy w.at c.change.kind c.change.target
          ≡ (done (some v), w.at)
    unfolding read_prior_state prior_of
    reads_prior w before = rw (is_sysctl, prior_of) (rw before refl)

    guarded-Restores :
        (w : World host)
        → read_sysctl host w.at c.change.target ≡ some v
        → find_change c.change.id w.ledger ≡ none
        → Restores c.change.target v (apply_guarded floats host probes meanwhile c w)
    unfolding apply_guarded after_prior row
    guarded-Restores w before fresh =
        subst
          (λ prior.
            Restores c.change.target v (after_prior floats host probes meanwhile c w.ledger prior))
          (sym (reads_prior w before))
          (after_apply-Restores _ _
            (find-recorded floats host probes meanwhile c (some v) w alone fresh))

    -- Let a sysctl change of a new id be made without the helper, on a host whose kernel files keep
    -- `v` when it is written to them, let nobody else touch the row of the change while the guard is at
    -- it, and let the key read `v`, which is not empty, before. If the guard reports that the change missed its conditions and was reverted, the key reads `v` again.
    pub apply_guarded_restores :
        (w : World host) (o : GuardOutcome floats)
        → read_sysctl host w.at c.change.target ≡ some v
        → find_change c.change.id w.ledger ≡ none
        → (apply_guarded floats host probes meanwhile c w).0 ≡ done o
        → o.status ≡ reverted
        → non_empty o.results ≡ true
        → read_sysctl host (apply_guarded floats host probes meanwhile c w).1.at c.change.target
          ≡ some v
    apply_guarded_restores w o before fresh e st res = guarded-Restores w before fresh o e st res

  -- Each condition is observed to hold when its turn comes, the first now.
  abbrev pub ObservedFrom : World host → List (Condition floats) → Type 0
  ObservedFrom w [] = Unit
  ObservedFrom w (c ∷ cs) =
      All (Confirmed floats (probes w.at)) (c ∷ []) × ObservedFrom (meanwhile 0 w) cs

  all_met-append :
      (xs ys : List (ConditionResult floats))
      → all_met floats (xs ++ ys) ≡ true
      → (all_met floats xs ≡ true) × (all_met floats ys ≡ true)
  unfolding all_met
  all_met-append [] ys h = (refl, h)
  all_met-append (x ∷ xs) ys h = ground (arith, all_met-append xs ys)

  read-ObservedFrom :
      (w : World host) (cs : List (Condition floats))
      → all_met floats (read_conditions floats host probes meanwhile w cs).0 ≡ true
      → ObservedFrom w cs
  unfolding read_conditions
  read-ObservedFrom w [] h = tt
  read-ObservedFrom w (c ∷ cs) h =
      let (one, others) =
        all_met-append (evaluate_conditions floats (probes w.at) (c ∷ []))
          (read_conditions floats host probes meanwhile (meanwhile 0 w) cs).0 h in
      (
        (all_met_iff floats (probes w.at) (c ∷ [])).0 one,
        read-ObservedFrom (meanwhile 0 w) cs others,
      )

  -- A reported verification, where the conditions are read from a world on.
  abbrev Verifies : Call floats → World host → Outcome (GuardOutcome floats) × World host → Type 0
  Verifies c from result =
      (o : GuardOutcome floats)
      → result.0 ≡ done o
      → o.status ≡ verified
      → (o.ok ≡ true) × ObservedFrom from c.conditions

  revert_row-Verifies :
      (c : Call floats) (results : List (ConditionResult floats)) (w : World host)
      (r : Option ChangeRecord) (from : World host)
      → Verifies c from (revert_row floats host probes meanwhile c results w r)
  unfolding revert_row after_revert outcome
  revert_row-Verifies c results w none from o e st = cc
  revert_row-Verifies c results w (some r) from o e st = ground arith

  verify-Verifies :
      (c : Call floats) (can : Bool) (w : World host)
      → Verifies c w (verify_change floats host probes meanwhile c can w)
  unfolding verify_change outcome settle
  verify-Verifies c can w =
      let (results, after) = read_conditions floats host probes meanwhile w c.conditions in
      elim (Bool-cases (all_met floats results)) [
        | inl held ↦ rw held (λ o e st. (ground arith, read-ObservedFrom w c.conditions held))
        | inr missed ↦ elim (Bool-cases can) [
          | inl yes_can ↦
              rw (missed, yes_can)
                (revert_row-Verifies c results after (find_change c.change.id after.ledger) w)
          | inr cannot ↦ rw (missed, cannot) (λ o e st. ground arith)
        ]
      ]

  after_apply-Verifies :
      (c : Call floats) (ledger : Ledger) (result : Outcome Bool × host.State)
      → Verifies c
          (after_settling floats host probes meanwhile c
            (record { at = result.1; ledger = ledger }))
          (after_apply floats host probes meanwhile c ledger result)
  unfolding after_apply outcome
  after_apply-Verifies c ledger (done true, h) = elim (Bool-cases (non_empty c.conditions)) [
    | inl asked ↦ rw asked (verify-Verifies c (is_revertible c.change.kind c.change.new_value) _)
    | inr none_asked ↦ rw none_asked (λ o e st. ground arith)
  ]
  after_apply-Verifies c ledger (done false, h) = λ o e st. ground arith
  after_apply-Verifies c ledger (unsafe, h) = λ o e st. ground arith
  after_apply-Verifies c ledger (crashed, h) = λ o e st. cc

  -- The world in which the first condition is read: the change is recorded and applied, and the guard has
  -- waited.
  abbrev from_prior : Call floats → Ledger → Outcome (Option String) × host.State → World host
  from_prior c ledger (done previous, h) =
      let w =
        recorded floats host probes meanwhile c previous (record { at = h; ledger = ledger }) in
      after_settling floats host probes meanwhile c
        (record w { at = (apply_change floats host probes meanwhile c.policy w.at c.change).1 })
  from_prior c ledger (unsafe, h) = record { at = h; ledger = ledger }
  from_prior c ledger (crashed, h) = record { at = h; ledger = ledger }

  abbrev pub settled_world : Call floats → World host → World host
  settled_world c w =
      from_prior c w.ledger
        (read_prior_state floats host probes meanwhile c.policy w.at c.change.kind c.change.target)

  after_prior-Verifies :
      (c : Call floats) (ledger : Ledger) (result : Outcome (Option String) × host.State)
      → Verifies c
          (from_prior c ledger result)
          (after_prior floats host probes meanwhile c ledger result)
  unfolding after_prior
  after_prior-Verifies c ledger (done previous, h) = after_apply-Verifies c _ _
  after_prior-Verifies c ledger (unsafe, h) = λ o e st. cc
  after_prior-Verifies c ledger (crashed, h) = λ o e st. cc

  -- A change is reported as verified only as a success, and only when every condition that it was given
  -- was observed to hold when its turn came: the first in the world in which the change has settled, each
  -- later one after what the host did in the meantime.
  pub apply_guarded_verified :
      (c : Call floats) (w : World host) (o : GuardOutcome floats)
      → (apply_guarded floats host probes meanwhile c w).0 ≡ done o
      → o.status ≡ verified
      → (o.ok ≡ true) × ObservedFrom (settled_world c w) c.conditions
  unfolding apply_guarded
  apply_guarded_verified c w =
      after_prior-Verifies c w.ledger
        (read_prior_state floats host probes meanwhile c.policy w.at c.change.kind c.change.target)
