-- ===== src/Access.antt =====
-- Who may do what: roles and permissions of src/hoursx/auth/rbac.py, and the administration of a
-- workspace's members of src/hoursx/api/routers/members.py.
pub mod Members
mod Tests
use hours_x.Prelude.{
  ℕ, List, [], ◌∷◌, Bool, true, false, ◌||◌, Option, none, some, String, if◌then◌else◌, str_eq,
}

pub data Role : Type 0 where
  owner admin member viewer : Role

unfoldable pub role_value : Role → String
role_value owner = "owner"
role_value admin = "admin"
role_value member = "member"
role_value viewer = "viewer"

-- `Role(text)`; `none` is the `ValueError`.
unfoldable pub role_of : String → Option Role
role_of text =
    if str_eq text "owner"
    then some owner
    else if str_eq text "admin"
    then some admin
    else if str_eq text "member"
    then some member
    else if str_eq text "viewer"
    then some viewer
    else none

pub data Permission : Type 0 where
  workspace_manage members_manage agents_manage sessions_use runs_approve knowledge_write :
      Permission
  knowledge_read schedules_manage plugins_manage observe : Permission

abbrev viewer_grants : Permission → Bool
viewer_grants knowledge_read = true
viewer_grants observe = true
viewer_grants _ = false

abbrev member_adds : Permission → Bool
member_adds sessions_use = true
member_adds knowledge_write = true
member_adds _ = false

abbrev admin_adds : Permission → Bool
admin_adds agents_manage = true
admin_adds runs_approve = true
admin_adds schedules_manage = true
admin_adds plugins_manage = true
admin_adds members_manage = true
admin_adds _ = false

abbrev owner_adds : Permission → Bool
owner_adds workspace_manage = true
owner_adds _ = false

abbrev member_grants : Permission → Bool
member_grants p = viewer_grants p || member_adds p

abbrev admin_grants : Permission → Bool
admin_grants p = member_grants p || admin_adds p

abbrev owner_grants : Permission → Bool
owner_grants p = admin_grants p || owner_adds p

unfoldable pub grants : Role → Permission → Bool
grants viewer p = viewer_grants p
grants member p = member_grants p
grants admin p = admin_grants p
grants owner p = owner_grants p

unfoldable pub role_allows : String → Permission → Bool
role_allows text p = elim (role_of text) [ none ↦ false | some r ↦ grants r p ]

unfoldable pub rank : Role → ℕ
rank viewer = 0
rank member = 1
rank admin = 2
rank owner = 3
