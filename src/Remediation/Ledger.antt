-- ===== src/Remediation/Ledger.antt =====
-- src/hoursx/remediation/ledger.py: the rows that say what was changed and how to put it back. The
-- table is the list of its rows; times and windows are in seconds; details are left out.
pub mod Invariant
pub mod Sweep
pub mod Rows
pub mod Reverts
use hours_x.Prelude.{
  ℕ, ◌+◌, List, [], ◌∷◌, ◌++◌, Bool, true, false, ◌&&◌, ◌||◌, not, Option, none, some, String, ltb,
  str_eq, if◌then◌else◌,
}
use hours_x.Ops.{Host, OpResult, Outcome, done, unsafe, crashed, write_sysctl, manage_service}
use hours_x.Privileges.{SystemPolicy}

pub data ChangeKind : Type 0 where
  sysctl service : ChangeKind

pub data ChangeStatus : Type 0 where
  applied verified confirmed reverted revert_failed unrevertible : ChangeStatus

unfoldable pub service_inverse : String → Option String
service_inverse action =
    if str_eq action "start"
    then some "stop"
    else if str_eq action "stop"
    then some "start"
    else if str_eq action "enable"
    then some "disable"
    else if str_eq action "disable"
    then some "enable"
    else none

pub record ChangeRecord : Type 0 where
  pub id : String
  pub workspace_id : String
  pub run_id : Option String
  pub kind : ChangeKind
  pub target : String
  pub previous_value : Option String
  pub new_value : String
  pub revertible : Bool
  pub status : ChangeStatus
  pub expires_at : Option ℕ
  pub settled_at : Option ℕ

abbrev pub Ledger : Type 0
Ledger = List ChangeRecord

-- session.get(ChangeRecord, id)
unfoldable pub find_change : String → Ledger → Option ChangeRecord
find_change id [] = none
find_change id (r ∷ rs) = if str_eq r.id id then some r else find_change id rs

-- UPDATE … WHERE id = ?
unfoldable pub update_change : String → (ChangeRecord → ChangeRecord) → Ledger → Ledger
update_change id f [] = []
update_change id f (r ∷ rs) = (if str_eq r.id id then f r else r) ∷ update_change id f rs

unfoldable pub is_revertible : ChangeKind → String → Bool
is_revertible sysctl new_value = true
is_revertible service new_value = elim (service_inverse new_value) [ none ↦ false | some _ ↦ true ]

unfoldable pub expiry : ℕ → Option ℕ → Bool → Option ℕ
expiry now none can_revert = none
expiry now (some seconds) can_revert = if can_revert then some (now + seconds) else none

-- What the caller knows of a change: the row's id is drawn by the database.
pub record Change : Type 0 where
  pub id : String
  pub workspace_id : String
  pub run_id : Option String
  pub kind : ChangeKind
  pub target : String
  pub new_value : String

unfoldable pub new_record : Change → Option String → ℕ → Option ℕ → ChangeRecord
unfolding is_revertible expiry
new_record c previous now revert_after = record {
  id = c.id;
  workspace_id = c.workspace_id;
  run_id = c.run_id;
  kind = c.kind;
  target = c.target;
  previous_value = previous;
  new_value = c.new_value;
  revertible = is_revertible c.kind c.new_value;
  status = if is_revertible c.kind c.new_value then applied else unrevertible;
  expires_at = expiry now revert_after (is_revertible c.kind c.new_value);
  settled_at = none;
}

unfoldable pub record_change : Ledger → Change → Option String → ℕ → Option ℕ → Ledger
record_change ledger c previous now revert_after =
    ledger ++ new_record c previous now revert_after ∷ []

pub record RevertOutcome : Type 0 where
  pub ok : Bool
  pub status : ChangeStatus

-- No revert is due: undone already, or kept by a human.
abbrev pub needs_no_revert : ChangeStatus → Bool
needs_no_revert reverted = true
needs_no_revert confirmed = true
needs_no_revert _ = false

abbrev pub revert_status : Bool → ChangeStatus
revert_status true = reverted
revert_status false = revert_failed

abbrev pub settle_revert : Bool → ℕ → ChangeRecord → ChangeRecord
settle_revert ok now r = record r {
  status = revert_status ok;
  expires_at = none;
  settled_at = some now;
}

module _ (host : Host) where
  open host use {State}

  -- The ledger is written in the same session that reads it: a crash rolls the writes back, and
  -- leaves what the host has done.
  pub record World : Type 0 where
    pub at : State
    pub ledger : Ledger

  unfoldable pub ok_of : Outcome OpResult × State → Outcome Bool × State
  ok_of (done r, h) = (done r.ok, h)
  ok_of (unsafe, h) = (unsafe, h)
  ok_of (crashed, h) = (crashed, h)

  undo_sysctl : SystemPolicy → State → String → Option String → Outcome Bool × State
  unfolding ok_of
  undo_sysctl policy h target none = (done false, h)
  undo_sysctl policy h target (some previous) = ok_of (write_sysctl host policy h target previous)

  undo_service : SystemPolicy → State → String → Option String → Outcome Bool × State
  unfolding ok_of
  undo_service policy h target none = (done false, h)
  undo_service policy h target (some inverse) = ok_of (manage_service host policy h target inverse)

  undo_kind : SystemPolicy → State → ChangeKind → ChangeRecord → Outcome Bool × State
  unfolding undo_sysctl undo_service
  undo_kind policy h sysctl r = undo_sysctl policy h r.target r.previous_value
  undo_kind policy h service r = undo_service policy h r.target (service_inverse r.new_value)

  unfoldable pub apply_inverse : SystemPolicy → State → ChangeRecord → Outcome Bool × State
  unfolding undo_kind
  apply_inverse policy h r = undo_kind policy h r.kind r

  settled : World → ChangeRecord → ℕ → Outcome Bool × State → Outcome RevertOutcome × World
  settled w r now (done ok, h) = (
    done (record { ok = ok; status = revert_status ok }),
    record { at = h; ledger = update_change r.id (settle_revert ok now) w.ledger },
  )
  settled w r now (unsafe, h) = (
    done (record { ok = false; status = revert_failed }),
    record { at = h; ledger = update_change r.id (settle_revert false now) w.ledger },
  )
  settled w r now (crashed, h) = (crashed, record w { at = h })

  unfoldable pub revert_change :
      SystemPolicy → ℕ → World → ChangeRecord → Outcome RevertOutcome × World
  unfolding settled
  revert_change policy now w r =
      if needs_no_revert r.status
      then (done (record { ok = true; status = r.status }), w)
      else if not r.revertible
      then (done (record { ok = false; status = unrevertible }), w)
      else settled w r now (apply_inverse policy w.at r)

  unfoldable pub load_change : World → String → String → Option ChangeRecord
  load_change w change_id workspace_id = elim (find_change change_id w.ledger) [
    | none ↦ none
    | some r ↦ if str_eq r.workspace_id workspace_id then some r else none
  ]

  is_applied : ChangeStatus → Bool
  is_applied applied = true
  is_applied _ = false

  before_now : Option ℕ → ℕ → Bool
  before_now none now = false
  before_now (some t) now = ltb t now

  unfoldable pub is_due : ℕ → ChangeRecord → Bool
  unfolding is_applied before_now
  is_due now r = is_applied r.status && before_now r.expires_at now

  unfoldable pub due : ℕ → Ledger → List ChangeRecord
  due now [] = []
  due now (r ∷ rs) = if is_due now r then r ∷ due now rs else due now rs

  collect :
      ChangeRecord
      → Outcome RevertOutcome
      → World
      → Option (List String) × World
      → Option (List String) × World
  collect r (done o) w (none, w') = (none, w')
  collect r (done o) w (some ids, w') = (some (if o.ok then r.id ∷ ids else ids), w')
  collect r unsafe w rest = (none, w)
  collect r crashed w rest = (none, w)

  -- One pass over the due rows; `none` is an exception, which ends the pass.
  unfoldable pub revert_each :
      SystemPolicy → ℕ → World → List ChangeRecord → Option (List String) × World
  unfolding collect
  revert_each policy now w [] = (some [], w)
  revert_each policy now w (r ∷ rs) =
      let (outcome, w') = revert_change policy now w r in
      collect r outcome w' (revert_each policy now w' rs)

  -- The session commits at the end: a crash leaves the ledger as it was.
  unfoldable pub revert_expired_changes : SystemPolicy → ℕ → World → Option (List String) × World
  revert_expired_changes policy now w =
      let (ids, w') = revert_each policy now w (due now w.ledger) in
      elim ids [
        | none ↦ (none, record w' { ledger = w.ledger })
        | some reverted_ids ↦ (some reverted_ids, w')
      ]
