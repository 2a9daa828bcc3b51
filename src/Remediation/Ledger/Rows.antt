-- ===== src/Remediation/Ledger/Rows.antt =====
-- Rows of the change ledger (src/hoursx/remediation/ledger.py) under inserts and updates.
use hours_x.Prelude.{ℕ, [], ◌∷◌, ◌++◌, Option, none, some, String, ◌≡◌, refl, arith, eq_iff}
use hours_x.Remediation.Ledger.{
  ChangeRecord, Ledger, Change, find_change, update_change, new_record, record_change,
}

pub find-update :
    (id : String) (f : ChangeRecord → ChangeRecord) (ledger : Ledger) (r : ChangeRecord)
    → ((x : ChangeRecord) → (f x).id ≡ x.id)
    → find_change id ledger ≡ some r
    → find_change id (update_change id f ledger) ≡ some (f r)
unfolding find_change update_change
find-update id f [] r keeps h = cc
find-update id f (x ∷ xs) r keeps h =
    ground (arith, keeps x, eq_iff x.id id, eq_iff (f x).id id, find-update id f xs r keeps)

find-append :
    (id : String) (ledger : Ledger) (r : ChangeRecord)
    → r.id ≡ id
    → find_change id ledger ≡ none
    → find_change id (ledger ++ r ∷ []) ≡ some r
unfolding find_change
find-append id [] r e h = ground (arith, eq_iff r.id id)
find-append id (x ∷ xs) r e h = ground (arith, find-append id xs r e)

-- A row written under a new id is the one that the id finds.
pub find-record :
    (ledger : Ledger) (c : Change) (previous : Option String) (now : ℕ) (window : Option ℕ)
    → find_change c.id ledger ≡ none
    → find_change c.id (record_change ledger c previous now window)
      ≡ some (new_record c previous now window)
unfolding record_change new_record
find-record ledger c previous now window h =
    find-append c.id ledger (new_record c previous now window) refl h
