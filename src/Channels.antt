-- ===== src/Channels.antt =====
-- The channels by which people reach an agent: the messages and rows of src/hoursx/channels/base.py and
-- of src/hoursx/db/models.py, and the registry of src/hoursx/channels/router.py.
pub mod Dispatch
pub mod Rows
pub mod Inbound
pub mod Webhook
pub mod Adapters
mod Tests
use Prim.Native.String.{◌++◌ as text_append}
use hours_x.Prelude.{
  ℕ, List, [], ◌∷◌, Bool, true, false, Option, none, some, String, if◌then◌else◌, str_eq,
}

pub data ChannelKind : Type 0 where
  telegram whatsapp gmail slack webhook : ChannelKind

unfoldable pub kind_value : ChannelKind → String
kind_value telegram = "telegram"
kind_value whatsapp = "whatsapp"
kind_value gmail = "gmail"
kind_value slack = "slack"
kind_value webhook = "webhook"

pub record InboundMessage : Type 0 where
  pub channel : ChannelKind
  pub conversation_id : String
  pub sender_id : String
  pub external_id : String
  pub text : String
  pub subject : String

pub record OutboundMessage : Type 0 where
  pub conversation_id : String
  pub text : String
  pub subject : String
  pub reply_to : String

pub data ReplyStatus : Type 0 where
  pending sent abandoned : ReplyStatus

pub record ChannelReply : Type 0 where
  pub id : String
  pub workspace_id : String
  pub run_id : String
  pub channel : ChannelKind
  pub conversation_id : String
  pub subject : String
  pub reply_to : String
  pub status : ReplyStatus
  pub attempts : ℕ
  pub interim_sent : Bool
  pub sent_at : Option ℕ

abbrev pub Replies : Type 0
Replies = List ChannelReply

unfoldable pub routing_key : InboundMessage → String
routing_key m = text_append (kind_value m.channel) (text_append ":" m.conversation_id)

-- `digest` is the first 48 digits of the SHA-256 of a text.
unfoldable pub dedupe_key : (String → String) → InboundMessage → String
dedupe_key digest m =
    let identity = if str_eq m.external_id "" then text_append "body:" m.text else m.external_id in
    text_append "ch:" (digest (text_append (routing_key m) (text_append "|" identity)))
