-- ===== src/Remediation/Ledger/Invariant.antt =====
-- The invariant of the change ledger, src/hoursx/remediation/ledger.py and guard.py: a deadline
-- stands only on a change that is applied and revertible.
use hours_x.Prelude.{
  ℕ, List, [], ◌∷◌, Bool, true, false, Option, none, some, String, ◌≡◌, arith, All, All-snoc,
}
use hours_x.Ops.{Host, Outcome, done, unsafe, crashed}
use hours_x.Privileges.{SystemPolicy}
use hours_x.Remediation.Ledger.{
  applied, ChangeRecord, Ledger, Change, World, update_change, new_record, record_change,
  revert_change, settle_revert, revert_each, revert_expired_changes, due, apply_inverse, settled,
}

abbrev pub RowOk : ChangeRecord → Type 0
RowOk r = elim r.expires_at [
  | none ↦ Unit {0}
  | some _ ↦ (r.status ≡ applied) × (r.revertible ≡ true)
]

abbrev pub LedgerOk : Ledger → Type 0
LedgerOk = All RowOk

pub update-LedgerOk :
    (id : String) (f : ChangeRecord → ChangeRecord) (ledger : Ledger)
    → ((r : ChangeRecord) → RowOk (f r))
    → LedgerOk ledger
    → LedgerOk (update_change id f ledger)
unfolding update_change
update-LedgerOk id f [] keeps h = tt
update-LedgerOk id f (r ∷ rs) keeps h = ground (arith, keeps r, update-LedgerOk id f rs keeps h.1)

pub record-LedgerOk :
    (ledger : Ledger) (c : Change) (previous : Option String) (now : ℕ) (window : Option ℕ)
    → LedgerOk ledger
    → LedgerOk (record_change ledger c previous now window)
unfolding record_change new_record
record-LedgerOk ledger c previous now window h =
    All-snoc RowOk ledger (new_record c previous now window) h (ground arith)

module _ (host : Host) where
  settled-LedgerOk :
      (w : World host) (r : ChangeRecord) (now : ℕ) (result : Outcome Bool × host.State)
      → LedgerOk w.ledger
      → LedgerOk (settled host w r now result).1.ledger
  unfolding settled
  settled-LedgerOk w r now (done ok, h) l =
      update-LedgerOk r.id (settle_revert ok now) w.ledger (λ _. tt) l
  settled-LedgerOk w r now (unsafe, h) l =
      update-LedgerOk r.id (settle_revert false now) w.ledger (λ _. tt) l
  settled-LedgerOk w r now (crashed, h) l = l

  pub revert-LedgerOk :
      (policy : SystemPolicy) (now : ℕ) (w : World host) (r : ChangeRecord)
      → LedgerOk w.ledger
      → LedgerOk (revert_change host policy now w r).1.ledger
  unfolding revert_change
  revert-LedgerOk policy now w r l =
      ground (arith, settled-LedgerOk w r now (apply_inverse host policy w.at r) l)

  pub revert_each-LedgerOk :
      (policy : SystemPolicy) (now : ℕ) (w : World host) (rs : List ChangeRecord)
      → LedgerOk w.ledger
      → LedgerOk (revert_each host policy now w rs).1.ledger
  unfolding revert_each
  revert_each-LedgerOk policy now w [] l = l
  revert_each-LedgerOk policy now w (r ∷ rs) l =
      let here = revert-LedgerOk policy now w r l in
      let there = revert_each-LedgerOk policy now (revert_change host policy now w r).1 rs here in
      ground (arith, here, there)

  pub sweep-LedgerOk :
      (policy : SystemPolicy) (now : ℕ) (w : World host)
      → LedgerOk w.ledger
      → LedgerOk (revert_expired_changes host policy now w).1.ledger
  unfolding revert_expired_changes
  sweep-LedgerOk policy now w l =
      ground (arith, revert_each-LedgerOk policy now w (due host now w.ledger) l)
