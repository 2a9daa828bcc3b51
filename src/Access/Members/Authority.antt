-- ===== src/Access/Members/Authority.antt =====
-- What a request may change, and that it leaves its trace: src/hoursx/api/routers/members.py.
use mathlib.Core.List.{Mem, mem-cons_self, mem-cons_of_mem}
use hours_x.Prelude.{
  ◌≤◌, [], ◌∷◌, ◌++◌, Bool, true, false, ◌&&◌, not, Option, none, some, String, eq_iff, ◌≡◌, ◌⊎◌,
  refl, arith, inl, inr, Bool-cases, All, All-snoc,
}
use hours_x.Access.{Role, role_value, role_allows, rank, members_manage}
use hours_x.Access.Members.{
  User, Actor, WorkspaceMember, Members, AuditAction, AuditEvent, Database, Request, add_member,
  change_role, remove_member, Response, member_out, no_content, is_owner, is_member, has_user,
  set_role, delete, audited, add_user, add_found, only_owner, change_found, remove_found, respond,
  handle, outranks,
}

module _ (P : WorkspaceMember → Type 0) (w u : String) where
  All-set_role :
      (role : Role) (ms : Members)
      → ((m : WorkspaceMember) → m.workspace_id ≡ w → m.role ≡ role → P m)
      → All P ms
      → All P (set_role w u role ms)
  unfolding set_role
  All-set_role role [] new h = tt
  All-set_role role (x ∷ xs) new h = elim (Bool-cases (is_member w u x)) [
    | inl e ↦
        rw e (new (record x { role = role }) ((eq_iff x.workspace_id w).0 (ground arith)) refl, h.1)
    | inr e ↦ rw e (h.0, All-set_role role xs new h.1)
  ]

  All-delete : (ms : Members) → All P ms → All P (delete w u ms)
  unfolding delete
  All-delete [] h = tt
  All-delete (x ∷ xs) h = elim (Bool-cases (is_member w u x)) [
    | inl e ↦ rw e h.1
    | inr e ↦ rw e (h.0, All-delete xs h.1)
  ]

All-Mem : (xs ys : Members) → ((m : WorkspaceMember) → Mem m xs → Mem m ys) → All (λ m. Mem m ys) xs
All-Mem [] ys f = tt
All-Mem (x ∷ xs) ys f = (f x mem-cons_self, All-Mem xs ys (λ m h. f m (mem-cons_of_mem x h)))

All-inl : (P Q : WorkspaceMember → Type 0) (xs : Members) → All P xs → All (λ m. P m ⊎ Q m) xs
All-inl P Q [] h = tt
All-inl P Q (x ∷ xs) h = (inl h.0, All-inl P Q xs h.1)

abbrev pub is_refused : Response → Bool
is_refused (member_out user_id role) = false
is_refused no_content = false
is_refused _ = true

module _ (lower : String → String) (actor : Actor) where
  -- A row that was there, or one of the actor's workspace with no more than the actor's authority.
  abbrev pub Within : Database → WorkspaceMember → Type 0
  Within db m =
      Mem m db.members ⊎ ((m.workspace_id ≡ actor.workspace_id) × (rank m.role ≤ rank actor.role))

  -- One event of the actor's is added to the log.
  abbrev pub Logged : Database → Database → Type 0
  Logged db after =
      (e : AuditEvent) × (after.audit ≡ db.audit ++ e ∷ [])
      × (e.workspace_id ≡ actor.workspace_id)
      × (e.actor_user_id ≡ actor.user_id)

  abbrev Allowed : Database → Response × Database → Type 0
  Allowed db (response, after) =
      ((after ≡ db) × (is_refused response ≡ true))
      ⊎ ((is_refused response ≡ false) × Logged db after × All (Within db) after.members)

  start : (db : Database) → All (Within db) db.members
  start db = All-inl (λ m. Mem m db.members) _ db.members (All-Mem db.members db.members (λ m h. h))

  audited-Allowed :
      (response : Response) (action : AuditAction) (target : String) (ms : Members) (db : Database)
      → is_refused response ≡ false
      → All (Within db) ms
      → Allowed db (response, audited lower actor action target ms db)
  unfolding audited
  audited-Allowed response action target ms db e h = inr (e, (_, refl, refl, refl), h)

  module _ (role : Role) (low : outranks lower actor role ≡ false) where
    change_found-Allowed :
        (user_id : String) (db : Database) (m : Option WorkspaceMember)
        → Allowed db (change_found lower actor user_id role db m)
    unfolding change_found outranks
    change_found-Allowed user_id db none = inl (refl, refl)
    change_found-Allowed user_id db (some m) =
        elim (Bool-cases (not (is_owner role) && only_owner lower actor db m)) [
          | inl last ↦ rw last (inl (refl, refl))
          | inr more ↦ elim (Bool-cases (has_user user_id db.users)) [
            | inr gone ↦ rw (more, gone) (inl (refl, refl))
            | inl there ↦
                rw (more, there)
                  (audited-Allowed (member_out user_id role) _ user_id _ db refl (
                    All-set_role (Within db) actor.workspace_id user_id role db.members
                      (λ x here e. inr (here, ground (arith, low, e))) (start db)))
          ]
        ]

    add_user-Allowed :
        (db : Database) (user : User) (m : Option WorkspaceMember)
        → Allowed db (add_user lower actor role db user m)
    unfolding add_user outranks
    add_user-Allowed db user (some m) = inl (refl, refl)
    add_user-Allowed db user none =
        audited-Allowed (member_out user.id role) _ user.id _ db refl
          (All-snoc (Within db) db.members _ (start db) (inr (refl, ground (arith, low))))

    add_found-Allowed :
        (db : Database) (user : Option User) → Allowed db (add_found lower actor role db user)
    unfolding add_found
    add_found-Allowed db none = inl (refl, refl)
    add_found-Allowed db (some user) = add_user-Allowed db user _

  remove_found-Allowed :
      (user_id : String) (db : Database) (m : Option WorkspaceMember)
      → Allowed db (remove_found lower actor user_id db m)
  unfolding remove_found
  remove_found-Allowed user_id db none = inl (refl, refl)
  remove_found-Allowed user_id db (some m) = elim (Bool-cases (only_owner lower actor db m)) [
    | inl last ↦ rw last (inl (refl, refl))
    | inr more ↦ rw more (
        audited-Allowed no_content _ user_id _ db refl
          (All-delete (Within db) actor.workspace_id user_id db.members (start db)))
  ]

  respond-Allowed : (x : Request) (db : Database) → Allowed db (respond lower actor x db)
  unfolding respond
  respond-Allowed (add_member email role) db = elim (Bool-cases (outranks lower actor role)) [
    | inl high ↦ rw high (inl (refl, refl))
    | inr low ↦ rw low (add_found-Allowed role low db _)
  ]
  respond-Allowed (change_role user_id role) db = elim (Bool-cases (outranks lower actor role)) [
    | inl high ↦ rw high (inl (refl, refl))
    | inr low ↦ rw low (change_found-Allowed role low user_id db _)
  ]
  respond-Allowed (remove_member user_id) db = remove_found-Allowed user_id db _

  -- A request is refused and changes nothing, or its actor may manage members, the log has one more
  -- event, which names the actor and the workspace, and each row of members was there before or is one
  -- of the actor's workspace whose role does not outrank the actor's.
  pub handle-Allowed :
      (x : Request) (db : Database)
      → (((handle lower actor x db).1 ≡ db) × (is_refused (handle lower actor x db).0 ≡ true))
        ⊎ ((role_allows (role_value actor.role) members_manage ≡ true)
            × (is_refused (handle lower actor x db).0 ≡ false)
            × Logged db (handle lower actor x db).1
            × All (Within db) (handle lower actor x db).1.members)
  unfolding handle
  handle-Allowed x db = elim (Bool-cases (role_allows (role_value actor.role) members_manage)) [
    | inr barred ↦ inl (rw barred (refl, refl))
    | inl may ↦ elim (respond-Allowed x db) [
      | inl h ↦ inl (rw may h)
      | inr (e, l, h) ↦ inr (may, rw may e, rw may l, rw may h)
    ]
  ]
