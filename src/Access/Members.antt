-- ===== src/Access/Members.antt =====
-- The requests that change a workspace's members: src/hoursx/api/routers/members.py, with what `require` of
-- src/hoursx/api/deps.py asks first and what src/hoursx/audit.py records. A request is one step: its
-- reading and its writing are not interleaved with another's.
pub mod Owners
pub mod Authority
use hours_x.Prelude.{
  ℕ, suc, List, [], ◌∷◌, ◌++◌, Bool, true, false, ◌&&◌, not, Option, none, some, String,
  if◌then◌else◌, ltb, ◌==◌, str_eq,
}
use hours_x.Access.{
  Role, owner, admin, member, viewer, role_value, role_allows, rank, members_manage,
}

pub record User : Type 0 where
  pub id : String
  pub email : String

pub record Actor : Type 0 where
  pub user_id : String
  pub workspace_id : String
  pub role : Role

pub record WorkspaceMember : Type 0 where
  pub workspace_id : String
  pub user_id : String
  pub role : Role

abbrev pub Members : Type 0
Members = List WorkspaceMember

-- The actions with their details.
pub data AuditAction : Type 0 where
  member_added : Role → AuditAction
  member_role_changed : Role → Role → AuditAction
  member_removed : AuditAction

pub record AuditEvent : Type 0 where
  pub workspace_id : String
  pub actor_user_id : String
  pub action : AuditAction
  pub target_id : String

pub record Database : Type 0 where
  pub users : List User
  pub members : Members
  pub audit : List AuditEvent

-- The bodies of POST, PUT and DELETE.
pub data Request : Type 0 where
  add_member : String → Role → Request
  change_role : String → Role → Request
  remove_member : String → Request

pub data Response : Type 0 where
  member_out : String → Role → Response
  no_content forbidden escalation no_user already_member member_missing last_owner broken : Response

abbrev pub is_owner : Role → Bool
is_owner owner = true
is_owner _ = false

abbrev pub is_member : String → String → WorkspaceMember → Bool
is_member workspace_id user_id m = str_eq m.workspace_id workspace_id && str_eq m.user_id user_id

unfoldable pub find_email : String → List User → Option User
find_email email [] = none
find_email email (u ∷ us) = if str_eq u.email email then some u else find_email email us

unfoldable pub has_user : String → List User → Bool
has_user id [] = false
has_user id (u ∷ us) = if str_eq u.id id then true else has_user id us

unfoldable pub find_member : String → String → Members → Option WorkspaceMember
find_member workspace_id user_id [] = none
find_member workspace_id user_id (m ∷ ms) =
    if is_member workspace_id user_id m then some m else find_member workspace_id user_id ms

unfoldable pub owner_count : String → Members → ℕ
owner_count workspace_id [] = 0
owner_count workspace_id (m ∷ ms) =
    if str_eq m.workspace_id workspace_id && is_owner m.role
    then suc (owner_count workspace_id ms)
    else owner_count workspace_id ms

-- The row that `find_member` gives, with another role.
unfoldable pub set_role : String → String → Role → Members → Members
set_role workspace_id user_id role [] = []
set_role workspace_id user_id role (m ∷ ms) =
    if is_member workspace_id user_id m
    then record m { role = role } ∷ ms
    else m ∷ set_role workspace_id user_id role ms

-- The members without that row.
unfoldable pub delete : String → String → Members → Members
delete workspace_id user_id [] = []
delete workspace_id user_id (m ∷ ms) =
    if is_member workspace_id user_id m then ms else m ∷ delete workspace_id user_id ms

-- `lower` is Python's method of that name.
module _ (lower : String → String) (actor : Actor) where
  outranks : Role → Bool
  outranks role = ltb (rank actor.role) (rank role)

  audited : AuditAction → String → Members → Database → Database
  audited action target_id members db = record db {
    members = members;
    audit =
        db.audit
        ++ record {
          workspace_id = actor.workspace_id;
          actor_user_id = actor.user_id;
          action = action;
          target_id = target_id;
        }
          ∷ [];
  }

  add_user : Role → Database → User → Option WorkspaceMember → Response × Database
  unfolding audited
  add_user role db user (some existing) = (already_member, db)
  add_user role db user none =
      let membership : WorkspaceMember = record {
        workspace_id = actor.workspace_id;
        user_id = user.id;
        role = role;
      } in
      (
        member_out user.id role,
        audited (member_added role) user.id (db.members ++ membership ∷ []) db,
      )

  add_found : Role → Database → Option User → Response × Database
  unfolding add_user
  add_found role db none = (no_user, db)
  add_found role db (some user) =
      add_user role db user (find_member actor.workspace_id user.id db.members)

  -- Whether the row is that of the only owner.
  only_owner : Database → WorkspaceMember → Bool
  only_owner db m = is_owner m.role && owner_count actor.workspace_id db.members == 1

  change_found : String → Role → Database → Option WorkspaceMember → Response × Database
  unfolding only_owner audited
  change_found user_id role db none = (member_missing, db)
  change_found user_id role db (some m) =
      if not (is_owner role) && only_owner db m
      then (last_owner, db)
      else if has_user user_id db.users
      then (
        member_out user_id role,
        audited (member_role_changed m.role role) user_id
            (set_role actor.workspace_id user_id role db.members) db,
      )
      else (broken, db)

  remove_found : String → Database → Option WorkspaceMember → Response × Database
  unfolding only_owner audited
  remove_found user_id db none = (member_missing, db)
  remove_found user_id db (some m) = if only_owner db m then (last_owner, db) else (
    no_content,
    audited member_removed user_id (delete actor.workspace_id user_id db.members) db,
  )

  respond : Request → Database → Response × Database
  unfolding outranks add_found change_found remove_found
  respond (add_member email role) db =
      if outranks role
      then (escalation, db)
      else add_found role db (find_email (lower email) db.users)
  respond (change_role user_id role) db =
      if outranks role
      then (escalation, db)
      else change_found user_id role db (find_member actor.workspace_id user_id db.members)
  respond (remove_member user_id) db =
      remove_found user_id db (find_member actor.workspace_id user_id db.members)

  unfoldable pub handle : Request → Database → Response × Database
  unfolding respond
  handle x db =
      if role_allows (role_value actor.role) members_manage then respond x db else (forbidden, db)
