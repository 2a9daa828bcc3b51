-- ===== src/Access/Tests.antt =====
-- A workspace with two owners and an admin.
use hours_x.Prelude.{[], ◌∷◌, String, ◌≡◌, ◌⊎◌, arith, true, false, All}
use hours_x.Access.{owner, admin, viewer, role_value, role_allows, members_manage}
use hours_x.Access.Members.{Actor, Database, change_role, remove_member, handle, owner_count}
use hours_x.Access.Members.Owners.{HasOwner, handle_all, handle_all-HasOwner}
use hours_x.Access.Members.Authority.{Within, Logged, is_refused, handle-Allowed}

abbrev lower : String → String
lower text = text

abbrev ana : Actor
ana = record { user_id = "ana"; workspace_id = "w"; role = owner }

abbrev bob : Actor
bob = record { user_id = "bob"; workspace_id = "w"; role = admin }

abbrev database : Database
database = record {
  users = record { id = "ana"; email = "a@x" } ∷ record { id = "bob"; email = "b@x" } ∷ [];
  members =
      record { workspace_id = "w"; user_id = "ana"; role = owner }
      ∷ record { workspace_id = "w"; user_id = "bob"; role = admin }
      ∷ [];
  audit = [];
}

handle_all-HasOwner_example : HasOwner "w" (
    handle_all lower
      ((bob, change_role "ana" viewer)
        ∷ (ana, remove_member "bob")
        ∷ (ana, remove_member "ana")
        ∷ [])
      database)
unfolding owner_count
handle_all-HasOwner_example =
    handle_all-HasOwner lower "w"
      ((bob, change_role "ana" viewer)
        ∷ (ana, remove_member "bob")
        ∷ (ana, remove_member "ana")
        ∷ [])
      database (omega arith)

handle-Allowed_example :
    (((handle lower bob (change_role "bob" viewer) database).1 ≡ database)
      × (is_refused (handle lower bob (change_role "bob" viewer) database).0 ≡ true))
    ⊎ ((role_allows (role_value admin) members_manage ≡ true)
        × (is_refused (handle lower bob (change_role "bob" viewer) database).0 ≡ false)
        × Logged lower bob database (handle lower bob (change_role "bob" viewer) database).1
        × All
            (Within lower bob database)
            (handle lower bob (change_role "bob" viewer) database).1.members)
handle-Allowed_example = handle-Allowed lower bob (change_role "bob" viewer) database
