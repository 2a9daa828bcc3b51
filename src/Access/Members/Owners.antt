-- ===== src/Access/Members/Owners.antt =====
-- A workspace never loses its last owner: src/hoursx/api/routers/members.py.
use hours_x.Prelude.{
  ℕ, ◌+◌, ◌≤◌, List, [], ◌∷◌, ◌++◌, true, false, Option, none, some, String, if◌then◌else◌, str_eq,
  eq_iff, ◌≡◌, refl, sym, subst, arith, inl, inr, Bool-cases,
}
use hours_x.Access.{Role}
use hours_x.Access.Members.{
  User, Actor, WorkspaceMember, Members, Database, Request, add_member, change_role, remove_member,
  is_owner, is_member, find_email, find_member, owner_count, set_role, delete, audited, add_user,
  add_found, only_owner, change_found, remove_found, respond, handle,
}

abbrev one : Role → ℕ
one role = if is_owner role then 1 else 0

module _ (w u : String) where
  owner_count-set_role :
      (role : Role) (ms : Members) (m : WorkspaceMember)
      → find_member w u ms ≡ some m
      → owner_count w (set_role w u role ms) + one m.role ≡ owner_count w ms + one role
  unfolding find_member owner_count set_role
  owner_count-set_role role [] m e = cc
  owner_count-set_role role (x ∷ xs) m e = ground (arith, owner_count-set_role role xs m)

  owner_count-delete :
      (ms : Members) (m : WorkspaceMember)
      → find_member w u ms ≡ some m
      → owner_count w (delete w u ms) + one m.role ≡ owner_count w ms
  unfolding find_member owner_count delete
  owner_count-delete [] m e = cc
  owner_count-delete (x ∷ xs) m e = ground (arith, owner_count-delete xs m)

  module _ (other : String) (apart : str_eq w other ≡ false) where
    elsewhere : (m : WorkspaceMember) → is_member w u m ≡ true → str_eq m.workspace_id other ≡ false
    elsewhere m h =
        let same : m.workspace_id ≡ w = (eq_iff m.workspace_id w).0 (ground arith) in
        subst (λ x. str_eq x other ≡ false) (sym same) apart

    owner_count-set_elsewhere :
        (role : Role) (ms : Members)
        → owner_count other (set_role w u role ms) ≡ owner_count other ms
    unfolding owner_count set_role
    owner_count-set_elsewhere role [] = refl
    owner_count-set_elsewhere role (x ∷ xs) =
        ground (arith, elsewhere x, owner_count-set_elsewhere role xs)

    owner_count-delete_elsewhere :
        (ms : Members) → owner_count other (delete w u ms) ≡ owner_count other ms
    unfolding owner_count delete
    owner_count-delete_elsewhere [] = refl
    owner_count-delete_elsewhere (x ∷ xs) =
        ground (arith, elsewhere x, owner_count-delete_elsewhere xs)

owner_count-snoc :
    (w : String) (ms : Members) (m : WorkspaceMember)
    → owner_count w ms ≤ owner_count w (ms ++ m ∷ [])
unfolding owner_count
owner_count-snoc w [] m = ground arith
owner_count-snoc w (x ∷ xs) m = ground (arith, owner_count-snoc w xs m)

abbrev pub HasOwner : String → Database → Type 0
HasOwner w db = 1 ≤ owner_count w db.members

module _ (lower : String → String) (actor : Actor) where
  change_found-own :
      (user_id : String) (role : Role) (db : Database) (m : WorkspaceMember)
      → find_member actor.workspace_id user_id db.members ≡ some m
      → HasOwner actor.workspace_id db
      → HasOwner actor.workspace_id (change_found lower actor user_id role db (some m)).1
  unfolding change_found audited only_owner
  change_found-own user_id role db m e h =
      ground (arith, owner_count-set_role actor.workspace_id user_id role db.members m e)

  remove_found-own :
      (user_id : String) (db : Database) (m : WorkspaceMember)
      → find_member actor.workspace_id user_id db.members ≡ some m
      → HasOwner actor.workspace_id db
      → HasOwner actor.workspace_id (remove_found lower actor user_id db (some m)).1
  unfolding remove_found audited only_owner
  remove_found-own user_id db m e h =
      ground (arith, owner_count-delete actor.workspace_id user_id db.members m e)

  module _ (w : String) where
    -- In the actor's own workspace, or in another.
    by_workspace :
        (f : Database → Database) (db : Database)
        → (HasOwner actor.workspace_id db → HasOwner actor.workspace_id (f db))
        → (str_eq actor.workspace_id w ≡ false → HasOwner w (f db))
        → HasOwner w db
        → HasOwner w (f db)
    by_workspace f db own apart h = elim (Bool-cases (str_eq actor.workspace_id w)) [
      | inl same ↦
          subst (λ x. HasOwner x db → HasOwner x (f db)) ((eq_iff actor.workspace_id w).0 same) own
            h
      | inr other ↦ apart other
    ]

    change_found-HasOwner :
        (user_id : String) (role : Role) (db : Database) (m : Option WorkspaceMember)
        → find_member actor.workspace_id user_id db.members ≡ m
        → HasOwner w db
        → HasOwner w (change_found lower actor user_id role db m).1
    unfolding change_found audited only_owner
    change_found-HasOwner user_id role db none e h = h
    change_found-HasOwner user_id role db (some m) e h =
        by_workspace (λ x. (change_found lower actor user_id role x (some m)).1) db
          (change_found-own user_id role db m e)
          (λ other.
            ground
              (arith, owner_count-set_elsewhere actor.workspace_id user_id w other role db.members))
          h

    remove_found-HasOwner :
        (user_id : String) (db : Database) (m : Option WorkspaceMember)
        → find_member actor.workspace_id user_id db.members ≡ m
        → HasOwner w db
        → HasOwner w (remove_found lower actor user_id db m).1
    unfolding remove_found audited only_owner
    remove_found-HasOwner user_id db none e h = h
    remove_found-HasOwner user_id db (some m) e h =
        by_workspace (λ x. (remove_found lower actor user_id x (some m)).1) db
          (remove_found-own user_id db m e)
          (λ other.
            ground
              (arith, owner_count-delete_elsewhere actor.workspace_id user_id w other db.members))
          h

    add_user-HasOwner :
        (role : Role) (db : Database) (user : User) (m : Option WorkspaceMember)
        → HasOwner w db
        → HasOwner w (add_user lower actor role db user m).1
    unfolding add_user audited
    add_user-HasOwner role db user (some m) h = h
    add_user-HasOwner role db user none h = omega (arith, h, owner_count-snoc w db.members _)

    add_found-HasOwner :
        (role : Role) (db : Database) (user : Option User)
        → HasOwner w db
        → HasOwner w (add_found lower actor role db user).1
    unfolding add_found
    add_found-HasOwner role db none h = h
    add_found-HasOwner role db (some user) h = add_user-HasOwner role db user _ h

    handle-HasOwner :
        (x : Request) (db : Database) → HasOwner w db → HasOwner w (handle lower actor x db).1
    unfolding handle respond
    handle-HasOwner (add_member email role) db h =
        ground (arith, add_found-HasOwner role db (find_email (lower email) db.users) h)
    handle-HasOwner (change_role user_id role) db h =
        ground (arith, change_found-HasOwner user_id role db _ refl h)
    handle-HasOwner (remove_member user_id) db h =
        ground (arith, remove_found-HasOwner user_id db _ refl h)

-- Requests of any actors, one after the other.
unfoldable pub handle_all : (String → String) → List (Actor × Request) → Database → Database
handle_all lower [] db = db
handle_all lower ((actor, x) ∷ xs) db = handle_all lower xs (handle lower actor x db).1

-- A workspace with an owner has one after every history of requests that do not interleave, whoever
-- makes them and in whatever workspace, be they taken or refused.
pub handle_all-HasOwner :
    (lower : String → String) (w : String) (xs : List (Actor × Request)) (db : Database)
    → HasOwner w db
    → HasOwner w (handle_all lower xs db)
unfolding handle_all
handle_all-HasOwner lower w [] db h = h
handle_all-HasOwner lower w ((actor, x) ∷ xs) db h =
    handle_all-HasOwner lower w xs _ (handle-HasOwner lower actor w x db h)
