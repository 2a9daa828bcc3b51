-- ===== src/Channels/Adapters/Mail.antt =====
-- The mails that Gmail sends: `send` of src/hoursx/channels/gmail.py.
use hours_x.Prelude.{
  List, [], ◌∷◌, true, false, Option, none, some, String, if◌then◌else◌, str_eq, leb,
}
use hours_x.Channels.{OutboundMessage}
use hours_x.Channels.Adapters.{ChannelCredentials, DeliveryResult, Response}

-- A mail as it is written, before it is encoded, and the thread that it is to join.
pub record Mail : Type 0 where
  pub to : String
  pub subject : String
  pub from_address : Option String
  pub content : String
  pub thread_id : Option String

abbrev or_given : String → String → String
or_given s default = if str_eq s "" then default else s

abbrev given : String → Option String
given s = if str_eq s "" then none else some s

unfoldable pub mail_of : ChannelCredentials → OutboundMessage → Mail
mail_of credentials m = record {
  to = or_given m.reply_to m.conversation_id;
  subject = or_given m.subject "Re:";
  from_address = given credentials.account_id;
  content = or_given m.text "(empty response)";
  thread_id = given m.conversation_id;
}

abbrev delivered : Option Response → DeliveryResult
delivered none = record { ok = false; sent = 0 }
delivered (some response) =
    if leb 400 response.status
    then record { ok = false; sent = 0 }
    else record { ok = true; sent = 1 }

-- The result, and the mails that were posted.
unfoldable pub send :
    (Mail → Option Response) → ChannelCredentials → OutboundMessage → DeliveryResult × List Mail
send post credentials m =
    if str_eq credentials.token ""
    then (record { ok = false; sent = 0 }, [])
    else (let mail = mail_of credentials m in (delivered (post mail), mail ∷ []))
