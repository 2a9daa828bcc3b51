-- ===== src/Channels/Webhook.antt =====
-- The webhook of a channel: `receive_webhook` of src/hoursx/api/routers/channels.py. The JSON decoder, the
-- configured channels and the ids that deliveries draw are parameters.
pub mod Acknowledged
use hours_x.Prelude.{
  ℕ, suc, ◌+◌, List, [], ◌∷◌, ◌++◌, Bool, true, false, Option, none, some, String, if◌then◌else◌,
  str_eq,
}
use hours_x.Prelude.Dict.{lookup, insert}
use hours_x.Runs.Intake.{QuotaPolicy}
use hours_x.Channels.{ChannelKind, telegram, whatsapp, gmail, slack, webhook, InboundMessage}
use hours_x.Channels.Inbound.{
  Database, ChannelTarget, Workspace, Delivery, RoutedRun, resolve_target, Failure, integrity_error,
  Routed, ok, failed, handle_inbound,
}

pub data Loaded (P : Type 0) : Type 0 where
  not_json other : Loaded P
  object : P → Loaded P

-- What the webhook asks of a channel; the last two are Gmail's.
pub record Channel (P : Type 0) : Type 0 where
  pub verify : String → Bool
  pub parse : P → Option InboundMessage
  pub list_history : String → List String × String
  pub fetch_message : String → Option InboundMessage

-- The answer: 200 for the first two, 404, 404, 401, 400, 400, 503, 503 and 500.
pub data Ack : Type 0 where
  accepted : ℕ → Ack
  ignored unknown_channel not_configured rejected bad_json bad_object misconfigured unroutable : Ack
  server_error : Ack

unfoldable pub kind_of : String → Option ChannelKind
kind_of text =
    if str_eq text "telegram"
    then some telegram
    else if str_eq text "whatsapp"
    then some whatsapp
    else if str_eq text "gmail"
    then some gmail
    else if str_eq text "slack"
    then some slack
    else if str_eq text "webhook"
    then some webhook
    else none

-- With the positions of Gmail's history by workspace.
pub record World : Type 0 where
  pub database : Database
  pub cursors : List (String × String)

module _ {P : Type 0} (digest : String → String) (policy : QuotaPolicy) (deliveries : ℕ → Delivery)
    (loads : String → Loaded P) where
  fetched : Channel P → List String → List InboundMessage
  fetched channel [] = []
  fetched channel (id ∷ ids) = elim (channel.fetch_message id) [
    | none ↦ fetched channel ids
    | some m ↦ m ∷ fetched channel ids
  ]

  after_start :
      Channel P
      → InboundMessage
      → ChannelTarget
      → World
      → Option String
      → List InboundMessage × World
  unfolding fetched
  after_start channel m target w none =
      ([], record w { cursors = insert target.workspace_id m.conversation_id w.cursors })
  after_start channel m target w (some start) =
      let (ids, next) = channel.list_history start in
      let position = if str_eq next "" then m.conversation_id else next in
      if str_eq start "" then ([], w) else (
        fetched channel ids,
        record w { cursors = insert target.workspace_id position w.cursors },
      )

  resolve_gmail : Channel P → InboundMessage → ChannelTarget → World → List InboundMessage × World
  unfolding after_start
  resolve_gmail channel m target w =
      after_start channel m target w (lookup target.workspace_id w.cursors)

  messages_of :
      ChannelKind → Channel P → InboundMessage → ChannelTarget → World → List InboundMessage × World
  unfolding resolve_gmail
  messages_of gmail channel m target w = resolve_gmail channel m target w
  messages_of _ channel m target w = (m ∷ [], w)

  -- An IntegrityError is no error of the platform's own, so nothing catches it.
  failure_ack : Failure → Ack
  failure_ack integrity_error = server_error
  failure_ack _ = unroutable

  -- `k` messages are done, `n` of them were new.
  route_all : ChannelTarget → ℕ → ℕ → List InboundMessage → World → Ack × World
  unfolding failure_ack
  route_all target k n [] w = (accepted n, w)
  route_all target k n (m ∷ ms) w =
      elim (handle_inbound m target digest policy (deliveries k) w.database) [
        | failed e db ↦ (failure_ack e, record w { database = db })
        | ok out db ↦
            route_all target (suc k) (if out.duplicate then n else suc n) ms
              (record w { database = db })
      ]

  on_target : ChannelKind → Channel P → InboundMessage → World → Option ChannelTarget → Ack × World
  unfolding route_all messages_of
  on_target kind channel m w none = (misconfigured, w)
  on_target kind channel m w (some target) =
      let (messages, after) = messages_of kind channel m target w in
      route_all target 0 0 messages after

  on_parsed :
      ChannelKind → Channel P → Option ChannelTarget → World → Option InboundMessage → Ack × World
  unfolding on_target
  on_parsed kind channel target w none = (ignored, w)
  on_parsed kind channel target w (some m) = on_target kind channel m w target

  on_loaded : ChannelKind → Channel P → Option ChannelTarget → World → Loaded P → Ack × World
  unfolding on_parsed
  on_loaded kind channel target w not_json = (bad_json, w)
  on_loaded kind channel target w other = (bad_object, w)
  on_loaded kind channel target w (object payload) =
      on_parsed kind channel target w (channel.parse payload)

  on_channel :
      ChannelKind → String → Option ChannelTarget → World → Option (Channel P) → Ack × World
  unfolding on_loaded
  on_channel kind body target w none = (not_configured, w)
  on_channel kind body target w (some channel) =
      if channel.verify body
      then on_loaded kind channel target w (loads (if str_eq body "" then "{}" else body))
      else (rejected, w)

  on_kind :
      (ChannelKind → Option (Channel P))
      → String
      → Option ChannelTarget
      → World
      → Option ChannelKind
      → Ack × World
  unfolding on_channel
  on_kind registry body target w none = (unknown_channel, w)
  on_kind registry body target w (some kind) = on_channel kind body target w (registry kind)

  -- The workspace and the handle are settings, the workspaces those of the database.
  unfoldable pub receive_webhook :
      (ChannelKind → Option (Channel P))
      → String
      → String
      → List Workspace
      → String
      → String
      → World
      → Ack × World
  unfolding on_kind
  receive_webhook registry slug agent_handle workspaces kind body w =
      on_kind registry body (resolve_target slug agent_handle workspaces) w (kind_of kind)
