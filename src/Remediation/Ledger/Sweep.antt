-- ===== src/Remediation/Ledger/Sweep.antt =====
-- The dead-man sweep of src/hoursx/remediation/ledger.py leaves no change past its deadline.
use hours_x.Prelude.{ℕ, List, [], ◌∷◌, true, false, none, some, ◌≡◌, All, map, ◌⊎◌}
use hours_x.Prelude.Text.{is_one_of}
use hours_x.Ops.{Host}
use hours_x.Privileges.{SystemPolicy}
use hours_x.Remediation.Ledger.{applied, reverted, revert_failed, ChangeRecord, Ledger, is_due}

abbrev CanRevert : ChangeRecord → Type 0
CanRevert r = (r.status ≡ applied) × (r.revertible ≡ true)

module _ (host : Host) (policy : SystemPolicy) (now : ℕ) where
  -- Every due row of the ledger is among the rows still to do.
  abbrev Pending : List ChangeRecord → Ledger → Type 0
  Pending rs =
      All (λ r.
        is_due host now r ≡ true → is_one_of r.id (map (λ (x : ChangeRecord). x.id) rs) ≡ true)

  abbrev pub NoneDue : Ledger → Type 0
  NoneDue = All (λ r. is_due host now r ≡ false)

  -- Settled by the sweep, as reverted or as a failed revert.
  abbrev pub Settled : ChangeRecord → ChangeRecord → Type 0
  Settled r s =
      (s.id ≡ r.id)
      × ((s.status ≡ reverted) ⊎ (s.status ≡ revert_failed))
      × (s.expires_at ≡ none)
      × (s.settled_at ≡ some now)

  -- A row is settled, or it is as it was and, if it is due, among the rows still to do.
  abbrev Swept : List ChangeRecord → ChangeRecord → ChangeRecord → Type 0
  Swept rs r s =
      Settled r s
      ⊎ ((s ≡ r)
          × (is_due host now r ≡ true
              → is_one_of r.id (map (λ (x : ChangeRecord). x.id) rs) ≡ true))

  abbrev pub Rowwise : (ChangeRecord → ChangeRecord → Type 0) → Ledger → Ledger → Type 0
  Rowwise R [] ss = ss ≡ []
  Rowwise R (r ∷ rs) ss =
      (s : ChangeRecord) × (tail : Ledger) × (ss ≡ s ∷ tail) × R r s × Rowwise R rs tail

  -- What the sweep makes of a row: a due one is settled, another stays as it is, unless it has the id of a
  -- due one.
  abbrev pub AfterSweep : ChangeRecord → ChangeRecord → Type 0
  AfterSweep r s = Settled r s ⊎ ((s ≡ r) × (is_due host now r ≡ false))
