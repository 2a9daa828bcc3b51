-- ===== src/Channels/Inbound.antt =====
-- Inbound messages become runs with a reply owed: `ChannelRouter` of src/hoursx/channels/router.py, over
-- `submit_message` of src/hoursx/orchestration.py. The digest and the ids that the database draws are
-- parameters; titles and sandboxes of sessions, and the goal that is made of a message, are left out.
pub mod Sessions
pub mod Redelivery
use Prim.Native.String.{◌++◌ as text_append}
use hours_x.Prelude.{
  ℕ, List, [], ◌∷◌, ◌++◌, Bool, true, false, ◌&&◌, Option, none, some, String, if◌then◌else◌,
  str_eq,
}
use hours_x.Runs.Store.{Table}
use hours_x.Runs.Intake.{
  QuotaPolicy, Quota, Submitted, submitted, not_found, refused, submit_message,
}
use hours_x.Channels.{
  ChannelKind, telegram, whatsapp, gmail, slack, webhook, InboundMessage, pending, ChannelReply,
  Replies, routing_key, dedupe_key,
}

pub record ChannelBinding : Type 0 where
  pub workspace_id : String
  pub routing_key : String
  pub session_id : String

pub record Session : Type 0 where
  pub id : String
  pub workspace_id : String
  pub user_id : String

pub record AgentProfile : Type 0 where
  pub workspace_id : String
  pub handle : String

pub record WorkspaceMember : Type 0 where
  pub workspace_id : String
  pub user_id : String

-- The tables that routing reads and writes; members in the order of their creation.
pub record Database : Type 0 where
  pub bindings : List ChannelBinding
  pub sessions : List Session
  pub profiles : List AgentProfile
  pub members : List WorkspaceMember
  pub runs : Table
  pub replies : Replies

pub record ChannelTarget : Type 0 where
  pub workspace_id : String
  pub agent_handle : String

pub record Workspace : Type 0 where
  pub id : String
  pub slug : String

-- The ids drawn and the time of one delivery of a webhook.
pub record Delivery : Type 0 where
  pub session_id : String
  pub run_id : String
  pub reply_id : String
  pub now : ℕ

pub record RoutedRun : Type 0 where
  pub run_id : String
  pub session_id : String
  pub duplicate : Bool

unfoldable pub find_slug : String → List Workspace → Option Workspace
find_slug slug [] = none
find_slug slug (w ∷ ws) = if str_eq w.slug slug then some w else find_slug slug ws

-- Configuration; `none` is the `NotFoundError`.
unfoldable pub resolve_target : String → String → List Workspace → Option ChannelTarget
resolve_target workspace_slug agent_handle workspaces =
    if str_eq workspace_slug "" then none else elim (find_slug workspace_slug workspaces) [
      | none ↦ none
      | some w ↦
          if str_eq agent_handle ""
          then none
          else some (record { workspace_id = w.id; agent_handle = agent_handle })
    ]

unfoldable pub find_binding : String → String → List ChannelBinding → Option ChannelBinding
find_binding workspace_id key [] = none
find_binding workspace_id key (b ∷ bs) =
    if str_eq b.workspace_id workspace_id && str_eq b.routing_key key
    then some b
    else find_binding workspace_id key bs

unfoldable pub find_session : String → List Session → Option Session
find_session id [] = none
find_session id (s ∷ ss) = if str_eq s.id id then some s else find_session id ss

unfoldable pub has_profile : String → String → List AgentProfile → Bool
has_profile workspace_id handle [] = false
has_profile workspace_id handle (p ∷ ps) =
    if str_eq p.workspace_id workspace_id && str_eq p.handle handle
    then true
    else has_profile workspace_id handle ps

unfoldable pub first_member : String → List WorkspaceMember → Option String
first_member workspace_id [] = none
first_member workspace_id (m ∷ ms) =
    if str_eq m.workspace_id workspace_id then some m.user_id else first_member workspace_id ms

unfoldable pub find_owed : String → Replies → Option ChannelReply
find_owed run_id [] = none
find_owed run_id (r ∷ rs) = if str_eq r.run_id run_id then some r else find_owed run_id rs

unfoldable pub reply_handle : ChannelKind → String → String
reply_handle gmail sender_id = sender_id
reply_handle _ sender_id = ""

unfoldable pub owed_reply : InboundMessage → String → String → String → ChannelReply
owed_reply m reply_id workspace_id run_id = record {
  id = reply_id;
  workspace_id = workspace_id;
  run_id = run_id;
  channel = m.channel;
  conversation_id = m.conversation_id;
  subject = if str_eq m.subject "" then "" else text_append "Re: " m.subject;
  reply_to = reply_handle m.channel m.sender_id;
  status = pending;
  attempts = 0;
  interim_sent = false;
  sent_at = none;
}

-- `_session_for` and the calls around it: a session, or the exception that left it.
pub data Failure : Type 0 where
  no_agent no_member session_missing integrity_error : Failure
  over_quota : Quota → Failure

pub data Routed {ℓ} (A : Type ℓ) : Type ℓ where
  ok : A → Database → Routed A
  failed : Failure → Database → Routed A

infixl 5 ◌>>=◌
abbrev pub ◌>>=◌ : {A B : Type 0} → Routed A → (A → Database → Routed B) → Routed B
ok a db >>= f = f a db
failed e db >>= f = failed e db

module _ (m : InboundMessage) (target : ChannelTarget) where
  -- A new session and its binding. A binding whose session is gone still holds the unique key.
  open_session : Delivery → Database → Option ChannelBinding → String → Routed Session
  open_session v db (some b) owner = failed integrity_error db
  open_session v db none owner =
      let session : Session = record {
        id = v.session_id;
        workspace_id = target.workspace_id;
        user_id = owner;
      } in
      ok session (record db {
        sessions = db.sessions ++ session ∷ [];
        bindings =
            db.bindings
            ++ record {
              workspace_id = target.workspace_id;
              routing_key = routing_key m;
              session_id = v.session_id;
            }
              ∷ [];
      })

  with_owner : Delivery → Database → Option ChannelBinding → Option String → Routed Session
  unfolding open_session
  with_owner v db bound none = failed no_member db
  with_owner v db bound (some owner) = open_session v db bound owner

  new_session : Delivery → Database → Option ChannelBinding → Routed Session
  unfolding with_owner
  new_session v db bound =
      if has_profile target.workspace_id target.agent_handle db.profiles
      then with_owner v db bound (first_member target.workspace_id db.members)
      else failed no_agent db

  bound_session : Delivery → Database → ChannelBinding → Option Session → Routed Session
  unfolding new_session
  bound_session v db b none = new_session v db (some b)
  bound_session v db b (some session) = ok session db

  from_binding : Delivery → Database → Option ChannelBinding → Routed Session
  unfolding new_session bound_session
  from_binding v db none = new_session v db none
  from_binding v db (some b) = bound_session v db b (find_session b.session_id db.sessions)

  unfoldable pub session_for : Delivery → Database → Routed Session
  unfolding from_binding
  session_for v db =
      from_binding v db (find_binding target.workspace_id (routing_key m) db.bindings)

  after_submit : Database → Submitted × Table → Routed String
  after_submit db (submitted run_id, runs) = ok run_id (record db { runs = runs })
  after_submit db (not_found, runs) = failed session_missing (record db { runs = runs })
  after_submit db (refused q, runs) = failed (over_quota q) (record db { runs = runs })

  -- True when the reply is new.
  unfoldable pub owe_reply : Delivery → String → Database → Bool × Database
  owe_reply v run_id db = elim (find_owed run_id db.replies) [
    | some r ↦ (false, db)
    | none ↦ (
      true,
      record db { replies = db.replies ++ owed_reply m v.reply_id target.workspace_id run_id ∷ [] },
    )
  ]

  routed : Session → Delivery → String → Database → Routed RoutedRun
  routed session v run_id db =
      let (fresh, after) = owe_reply v run_id db in
      ok
        (record {
          run_id = run_id;
          session_id = session.id;
          duplicate = if fresh then false else true;
        })
        after

  -- The calls of the conductor, with its quota policy; the session is there, since it was just read.
  submit : (String → String) → QuotaPolicy → Delivery → Session → Database → Routed String
  unfolding after_submit
  submit digest policy v session db = after_submit db (
      submit_message policy v.run_id (some session.workspace_id) (some (dedupe_key digest m)) v.now
        db.runs)

  unfoldable pub handle_inbound :
      (String → String) → QuotaPolicy → Delivery → Database → Routed RoutedRun
  unfolding submit routed
  handle_inbound digest policy v db = session_for v db >>= λ session after.
      submit digest policy v session after >>= λ run_id last. routed session v run_id last
