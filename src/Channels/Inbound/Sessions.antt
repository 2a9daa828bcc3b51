-- ===== src/Channels/Inbound/Sessions.antt =====
-- The session of a conversation (`_session_for` of src/hoursx/channels/router.py): once it is found or made,
-- the conversation stays bound to it.
use hours_x.Prelude.{
  List, [], ◌∷◌, ◌++◌, Option, none, some, String, eq_refl, ◌≡◌, refl, subst, arith, Bool-cases,
  Option-cases, inl, inr,
}
use hours_x.Channels.{InboundMessage, routing_key}
use hours_x.Channels.Inbound.{
  ChannelBinding, Session, Database, ChannelTarget, Delivery, Failure, find_binding, find_session,
  Routed, ok, failed, ◌>>=◌, open_session, with_owner, new_session, bound_session, from_binding,
  session_for, has_profile, first_member,
}

pub >>=-eq-ok :
    {A B : Type 0} (x : Routed A) (f : A → Database → Routed B) {b : B} {last : Database}
    → (x >>= f) ≡ ok b last
    → (a : A) × (db : Database) × (x ≡ ok a db) × (f a db ≡ ok b last)
>>=-eq-ok (ok a db) f h = (a, db, refl, h)
>>=-eq-ok (failed e db) f h = cc

pub ok-value : {A : Type 0} {a b : A} {x y : Database} → ok a x ≡ ok b y → a ≡ b
ok-value h = cc

pub ok-last : {A : Type 0} {a b : A} {x y : Database} → ok a x ≡ ok b y → x ≡ y
ok-last h = cc

pub not_failed : {A B : Type 0} {e : Failure} {b : A} {x y : Database} → failed e x ≡ ok b y → B
not_failed h = cc

find_session-append :
    (s : Session) (ss : List Session)
    → find_session s.id ss ≡ none
    → find_session s.id (ss ++ s ∷ []) ≡ some s
unfolding find_session
find_session-append s [] h = simp eq_refl
find_session-append s (x ∷ xs) h = ground (arith, find_session-append s xs)

find_binding-append :
    (b : ChannelBinding) (bs : List ChannelBinding)
    → find_binding b.workspace_id b.routing_key bs ≡ none
    → find_binding b.workspace_id b.routing_key (bs ++ b ∷ []) ≡ some b
unfolding find_binding
find_binding-append b [] h = simp eq_refl
find_binding-append b (x ∷ xs) h = ground (arith, find_binding-append b xs)

module _ (m : InboundMessage) (target : ChannelTarget) where
  -- The conversation is bound to a session that is there.
  abbrev pub Bound : List ChannelBinding → List Session → Session → Type 0
  Bound bindings sessions s =
      (b : ChannelBinding) × (find_binding target.workspace_id (routing_key m) bindings ≡ some b)
      × (find_session b.session_id sessions ≡ some s)

  pub Bound-session :
      (v : Delivery) (db : Database) (s : Session)
      → Bound db.bindings db.sessions s
      → session_for m target v db ≡ ok s db
  unfolding session_for bound_session
  Bound-session v db s (b, e, f) = rw e (rw f refl)

  open_session-Bound :
      (v : Delivery) (db last : Database) (bound : Option ChannelBinding) (owner : String)
      (s : Session)
      → find_session v.session_id db.sessions ≡ none
      → find_binding target.workspace_id (routing_key m) db.bindings ≡ bound
      → open_session m target v db bound owner ≡ ok s last
      → Bound last.bindings last.sessions s
  unfolding open_session
  open_session-Bound v db last (some b) owner s fresh e h = cc
  open_session-Bound v db last none owner s fresh e h =
      let session : Session = record {
        id = v.session_id;
        workspace_id = target.workspace_id;
        user_id = owner;
      } in
      let binding : ChannelBinding = record {
        workspace_id = target.workspace_id;
        routing_key = routing_key m;
        session_id = v.session_id;
      } in
      let here : Bound (db.bindings ++ binding ∷ []) (db.sessions ++ session ∷ []) session = (
        binding,
        find_binding-append binding db.bindings e,
        find_session-append session db.sessions fresh,
      ) in
      subst (λ x. Bound x.bindings x.sessions s) (ok-last h)
        (subst (λ x. Bound (db.bindings ++ binding ∷ []) (db.sessions ++ session ∷ []) x)
          (ok-value h) here)

  new_session-Bound :
      (v : Delivery) (db last : Database) (bound : Option ChannelBinding) (s : Session)
      → find_session v.session_id db.sessions ≡ none
      → find_binding target.workspace_id (routing_key m) db.bindings ≡ bound
      → new_session m target v db bound ≡ ok s last
      → Bound last.bindings last.sessions s
  unfolding new_session with_owner
  new_session-Bound v db last bound s fresh e h =
      elim (Bool-cases (has_profile target.workspace_id target.agent_handle db.profiles)) [
        | inl p ↦ elim (Option-cases (first_member target.workspace_id db.members)) [
          | inl q ↦ not_failed (rw (p, q) at h)
          | inr (owner, q) ↦ open_session-Bound v db last bound owner s fresh e (rw (p, q) at h)
        ]
        | inr p ↦ not_failed (rw p at h)
      ]

  bound_session-Bound :
      (v : Delivery) (db last : Database) (b : ChannelBinding) (found : Option Session)
      (s : Session)
      → find_session v.session_id db.sessions ≡ none
      → find_binding target.workspace_id (routing_key m) db.bindings ≡ some b
      → find_session b.session_id db.sessions ≡ found
      → bound_session m target v db b found ≡ ok s last
      → Bound last.bindings last.sessions s
  unfolding bound_session
  bound_session-Bound v db last b none s fresh e f h =
      new_session-Bound v db last (some b) s fresh e h
  bound_session-Bound v db last b (some t) s fresh e f h =
      let here : Bound db.bindings db.sessions t = (b, e, f) in
      subst (λ x. Bound x.bindings x.sessions s) (ok-last h)
        (subst (λ x. Bound db.bindings db.sessions x) (ok-value h) here)

  from_binding-Bound :
      (v : Delivery) (db last : Database) (found : Option ChannelBinding) (s : Session)
      → find_session v.session_id db.sessions ≡ none
      → find_binding target.workspace_id (routing_key m) db.bindings ≡ found
      → from_binding m target v db found ≡ ok s last
      → Bound last.bindings last.sessions s
  unfolding from_binding
  from_binding-Bound v db last none s fresh e h = new_session-Bound v db last none s fresh e h
  from_binding-Bound v db last (some b) s fresh e h =
      bound_session-Bound v db last b _ s fresh e refl h

  -- A session that routing gives is bound to the conversation from then on.
  pub session_for-Bound :
      (v : Delivery) (db last : Database) (s : Session)
      → find_session v.session_id db.sessions ≡ none
      → session_for m target v db ≡ ok s last
      → Bound last.bindings last.sessions s
  unfolding session_for
  session_for-Bound v db last s fresh h = from_binding-Bound v db last _ s fresh refl h
