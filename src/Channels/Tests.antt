-- ===== src/Channels/Tests.antt =====
-- A conversation over Telegram: its first message, the reply that is owed, and the sweeps that settle it.
use hours_x.Prelude.{
  ℕ, List, Option, str_eq, [], ◌∷◌, true, false, none, some, String, leb, ◌≡◌, refl, arith,
}
use hours_x.Runs.Store.{Run, succeeded, new_run}
use hours_x.Runs.Intake.{
  QuotaPolicy, submit_message, enforce_run_quota, find_key, active_runs, runs_last_hour,
}
use hours_x.Channels.{
  ChannelKind, telegram, InboundMessage, ChannelReply, routing_key, dedupe_key, kind_value,
}
use hours_x.Channels.Dispatch.{
  Dispatcher, find_reply, matched, claim, max_attempts, settle, message_for, is_pending,
}
use hours_x.Channels.Dispatch.Liveness.{sweeps, sweeps-Settled}
use hours_x.Channels.Dispatch.Owed.{Told}
use hours_x.Channels.Dispatch.Claims.{commit_all, claims, records, claim-Once}
use hours_x.Channels.Dispatch.Race.{in_flight_again}
use hours_x.Channels.Inbound.{
  Workspace, resolve_target, find_slug, Database, ChannelTarget, Delivery, RoutedRun, ok,
  handle_inbound, find_owed, session_for, find_session, find_binding, has_profile, first_member,
  owe_reply, owed_reply,
}
use hours_x.Channels.Webhook.{Loaded, object, Channel, World, kind_of, receive_webhook}
use hours_x.Channels.Webhook.Acknowledged.{is_ack, Served, receive_webhook-Served}
use hours_x.Channels.Inbound.Redelivery.{handle_inbound-Redelivered}
use hours_x.Runs.Store.{find_run, rowcount}

abbrev message : InboundMessage
message = record {
  channel = telegram;
  conversation_id = "c";
  sender_id = "s";
  external_id = "7";
  text = "hello";
  subject = "";
}

abbrev reply : ChannelReply
reply = owed_reply message "p" "w" "r"

abbrev done_run : Run
done_run = record (new_run "r" "w" none 10) { status = succeeded; final_answer = some "done" }

-- The service answers from the third try on.
abbrev dispatcher : Dispatcher
dispatcher = record {
  channel_reply_max_attempts = 3;
  configured = λ k. true;
  send = λ m n. leb 2 n;
  now = 50;
}

sweeps-Settled_example :
    (r' : ChannelReply) × (find_reply "p"
        (sweeps dispatcher (done_run ∷ []) (max_attempts dispatcher) (reply ∷ []))
      ≡ some r')
    × (is_pending r'.status ≡ false)
    × Told dispatcher (done_run ∷ []) (find_run r'.run_id (done_run ∷ [])) r'
unfolding find_reply owed_reply find_run new_run max_attempts
sweeps-Settled_example =
    sweeps-Settled dispatcher (done_run ∷ []) "p" (reply ∷ []) reply refl refl refl (omega arith)
      (tt, tt) (omega arith)

won : (claim "p" false 0 (reply ∷ [])).0 ≡ true
unfolding claim matched owed_reply
won = refl

claim-Once_example :
    (claim "p" false 0 (
      commit_all
        (claim "p" false 0 (reply ∷ [])).1
        (records 3 "p" false 20 ∷ claims "p" false 1 ∷ []))).0
    ≡ false
claim-Once_example =
    claim-Once "p" false 0 (reply ∷ []) (records 3 "p" false 20 ∷ claims "p" false 1 ∷ []) (tt, tt)
      won (tt, (tt, tt))

-- All tries are made, and the last message is on its way.
abbrev worn : ChannelReply
worn = record reply { attempts = 3 }

in_flight_again_example :
    ((claim "p" false 3 (worn ∷ [])).0 ≡ true)
    × ((settle dispatcher (done_run ∷ []) "p" (claim "p" false 3 (worn ∷ [])).1).1
        ≡ message_for false done_run worn ∷ [])
unfolding find_reply owed_reply find_run new_run
in_flight_again_example =
    in_flight_again dispatcher (done_run ∷ []) (worn ∷ []) worn done_run (tt, tt) refl refl refl
      refl refl

abbrev digest : String → String
digest text = text

abbrev open_policy : QuotaPolicy
open_policy = record { max_concurrent_runs = 2; max_runs_per_hour = 0 }

abbrev database : Database
database = record {
  bindings = [];
  sessions = [];
  profiles = record { workspace_id = "w"; handle = "helper" } ∷ [];
  members = record { workspace_id = "w"; user_id = "u" } ∷ [];
  runs = [];
  replies = [];
}

abbrev target : ChannelTarget
target = record { workspace_id = "w"; agent_handle = "helper" }

abbrev delivery : Delivery
delivery = record { session_id = "s1"; run_id = "r1"; reply_id = "p1"; now = 10 }

abbrev redelivery : Delivery
redelivery = record { session_id = "s2"; run_id = "r2"; reply_id = "p2"; now = 900 }

abbrev out : RoutedRun
out = record { run_id = "r1"; session_id = "s1"; duplicate = false }

abbrev after : Database
after = record database {
  bindings =
      record { workspace_id = "w"; routing_key = routing_key message; session_id = "s1" } ∷ [];
  sessions = record { id = "s1"; workspace_id = "w"; user_id = "u" } ∷ [];
  runs = new_run "r1" "w" (some (dedupe_key digest message)) 10 ∷ [];
  replies = owed_reply message "p1" "w" "r1" ∷ [];
}

first_delivery : handle_inbound message target digest open_policy delivery database ≡ ok out after
unfolding handle_inbound session_for has_profile first_member submit_message enforce_run_quota
    active_runs runs_last_hour rowcount find_binding find_key owe_reply owed_reply find_owed
    dedupe_key routing_key kind_value new_run
first_delivery = refl

handle_inbound-Redelivered_example :
    (handle_inbound message target digest open_policy redelivery after
      ≡ ok (record out { duplicate = true }) after)
    × (r : ChannelReply) × (find_owed "r1" after.replies ≡ some r)
unfolding find_session
handle_inbound-Redelivered_example =
    handle_inbound-Redelivered message target digest open_policy open_policy delivery redelivery
      database after out refl first_delivery

abbrev telegram_channel : Channel String
telegram_channel = record {
  verify = λ body. str_eq body "signed";
  parse = λ payload. some message;
  list_history = λ position. ([], "");
  fetch_message = λ id. none;
}

abbrev registry : ChannelKind → Option (Channel String)
registry kind = some telegram_channel

abbrev loads : String → Loaded String
loads text = object text

abbrev workspaces : List Workspace
workspaces = record { id = "w"; slug = "acme" } ∷ []

abbrev deliveries : ℕ → Delivery
deliveries k = delivery

abbrev world : World
world = record { database = database; cursors = [] }

webhook_acked :
    is_ack
      (receive_webhook digest open_policy deliveries loads registry "acme" "helper" workspaces
        "telegram" "signed" world).0
    ≡ true
unfolding receive_webhook kind_of resolve_target find_slug handle_inbound session_for has_profile
    first_member submit_message enforce_run_quota active_runs runs_last_hour rowcount find_binding
    find_key owe_reply owed_reply find_owed dedupe_key routing_key kind_value new_run
webhook_acked = refl

receive_webhook-Served_example :
    (k : ChannelKind) × (kind_of "telegram" ≡ some k)
    × (channel : Channel String) × (registry k ≡ some channel)
    × (channel.verify "signed" ≡ true)
    × Served digest open_policy deliveries loads k channel
        (resolve_target "acme" "helper" workspaces)
        (object "signed")
        world
        (receive_webhook digest open_policy deliveries loads registry "acme" "helper" workspaces
          "telegram" "signed" world).1
receive_webhook-Served_example =
    receive_webhook-Served digest open_policy deliveries loads registry "acme" "helper" workspaces
      "telegram" "signed" world webhook_acked
