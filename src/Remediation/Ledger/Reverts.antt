-- ===== src/Remediation/Ledger/Reverts.antt =====
-- A revert of src/hoursx/remediation/ledger.py: what it leaves in the ledger and on the host.
use hours_x.Prelude.{
  ℕ, true, false, some, String, ◌≡◌, ◌≢◌, refl, ap, sym, subst, ◌∙◌, arith, str_eq,
}
use hours_x.Ops.{Host, OpResult, Outcome, done, unsafe, crashed, write_sysctl, read_sysctl}
use hours_x.Ops.Envelope.{KeepsWrites, write_sysctl_stores}
use hours_x.Privileges.{SystemPolicy}
use hours_x.Remediation.Ledger.{
  sysctl, applied, ChangeRecord, RevertOutcome, World, find_change, revert_status, settle_revert,
  revert_change, settled, apply_inverse, ok_of, undo_kind, undo_sysctl,
}
use hours_x.Remediation.Ledger.Rows.{find-update}

module _ (host : Host) (policy : SystemPolicy) (now : ℕ) (w : World host) (r : ChangeRecord)
    (is_applied : r.status ≡ applied) (can_revert : r.revertible ≡ true) where
  revert-settled :
      revert_change host policy now w r ≡ settled host w r now (apply_inverse host policy w.at r)
  unfolding revert_change
  revert-settled = ground arith

  -- A revert that returns settles the row of an applied change, as reverted or as failed.
  pub revert_row_settled :
      (o : RevertOutcome)
      → find_change r.id w.ledger ≡ some r
      → (revert_change host policy now w r).0 ≡ done o
      → (o.status ≡ revert_status o.ok)
        × (find_change r.id (revert_change host policy now w r).1.ledger
            ≡ some (settle_revert o.ok now r))
  unfolding settled
  revert_row_settled o f h = ground (
    arith,
    revert-settled,
    find-update r.id (settle_revert true now) w.ledger r (λ _. refl) f,
    find-update r.id (settle_revert false now) w.ledger r (λ _. refl) f,
  )

  inverse_of_sysctl :
      (v : String)
      → r.kind ≡ sysctl
      → r.previous_value ≡ some v
      → apply_inverse host policy w.at r ≡ ok_of host (write_sysctl host policy w.at r.target v)
  unfolding apply_inverse undo_kind undo_sysctl
  inverse_of_sysctl v k p = rw (k, undo_kind) (rw (p, undo_sysctl) refl)

  settled_reads :
      (v : String) (o : RevertOutcome) (result : Outcome OpResult × host.State)
      → ((x : OpResult)
          → result.0 ≡ done x
          → x.ok ≡ true
          → read_sysctl host result.1 r.target ≡ some v)
      → (settled host w r now (ok_of host result)).0 ≡ done o
      → o.ok ≡ true
      → read_sysctl host (settled host w r now (ok_of host result)).1.at r.target ≡ some v
  unfolding settled ok_of
  settled_reads v o (done x, h) reads e ok = reads x refl (ground arith)
  settled_reads v o (unsafe, h) reads e ok = ground arith
  settled_reads v o (crashed, h) reads e ok = cc

  -- Where the kernel's files keep what is written, a successful revert of a sysctl change leaves the
  -- key with the value that was read before the change.
  pub revert_restores :
      (v : String) (o : RevertOutcome)
      → r.kind ≡ sysctl
      → r.previous_value ≡ some v
      → str_eq policy.backend "helper" ≡ false
      → KeepsWrites host v
      → v ≢ ""
      → (revert_change host policy now w r).0 ≡ done o
      → o.ok ≡ true
      → read_sysctl host (revert_change host policy now w r).1.at r.target ≡ some v
  revert_restores v o k p direct keeps text h ok =
      let same = revert-settled ∙ ap (settled host w r now) (inverse_of_sysctl v k p) in
      subst (λ (x : Outcome RevertOutcome × World host). read_sysctl host x.1.at r.target ≡ some v)
        (sym same)
        (settled_reads v o (write_sysctl host policy w.at r.target v)
          (λ x. write_sysctl_stores host policy w.at r.target v x direct keeps text)
          (subst (λ (x : Outcome RevertOutcome × World host). x.0 ≡ done o) same h) ok)
