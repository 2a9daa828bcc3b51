-- ===== src/Channels/Adapters/Telegram.antt =====
-- The Telegram Bot API: src/hoursx/channels/telegram.py.
use hours_x.Prelude.{
  ℕ, zero, suc, ◌/◌, List, [], ◌∷◌, Bool, true, false, not, ◌&&◌, Option, none, some, String,
  if◌then◌else◌, str_eq, ◌==◌, leb, ltb, length, take, drop,
}
use hours_x.Prelude.Dict.{lookup}
use hours_x.Prelude.Text.{join}
use hours_x.Json.{Value, null, text, obj, ◌>>=◌, get, item, or_else, truthy, as_text, empty_object}
use hours_x.Knowledge.{rfind}
use hours_x.Channels.{InboundMessage, OutboundMessage, telegram}
use hours_x.Channels.Adapters.{
  ChannelCredentials, DeliveryResult, Response, Text, codes, or_empty_response, post_all, member,
  str_of,
}

abbrev pub max_message_chars : ℕ
max_message_chars = 4096

-- Whether the webhook's secret is the configured one; both are ASCII, as the comparison asks.
unfoldable pub verify : ChannelCredentials → List (String × String) → Bool
verify credentials headers =
    if str_eq credentials.secret ""
    then true
    else elim (lookup "x-telegram-bot-api-secret-token" headers) [
      | none ↦ str_eq "" credentials.secret
      | some provided ↦ str_eq provided credentials.secret
    ]

abbrev pub present : List Value → List Value
present [] = []
present (v ∷ vs) = if truthy v then v ∷ present vs else present vs

abbrev pub texts_of : List Value → Option (List String)
texts_of [] = some []
texts_of (v ∷ vs) = do s ← as_text v; rest ← texts_of vs; some (s ∷ rest)

-- The name that is shown; it is only checked here.
unfoldable pub display_of : Value → Option Value
display_of sender = do
  first_name ← get "first_name" null sender
  last_name ← get "last_name" null sender
  names ← texts_of (present (first_name ∷ last_name ∷ []))
  username ← get "username" (text "") sender
  some (or_else (text (join " " names)) username)

module _ (repr : Value → String) where
  unfoldable pub inbound_of : Value → Value → Value → Value → Option InboundMessage
  inbound_of message chat sender said = do
    chat_id ← item "id" chat
    message_id ← get "message_id" (text "") message
    sender_id ← get "id" chat_id sender
    display ← display_of sender
    shown ← as_text display
    s ← as_text said
    some (record {
      channel = telegram;
      conversation_id = str_of repr chat_id;
      sender_id = str_of repr sender_id;
      external_id = str_of repr message_id;
      text = s;
      subject = "";
    })

  abbrev some_of : {A : Type 0} → Option A → Option (Option A)
  some_of none = none
  some_of (some a) = some (some a)

  -- `some none` is what is no message; `none` is an exception.
  abbrev parse_message : Value → Option (Option InboundMessage)
  parse_message message = get "chat" null message >>= λ chat. get "from" null message >>= λ from_.
      get "text" null message >>= λ said. get "caption" null message >>= λ caption.
      let words = or_else said (or_else caption (text "")) in
      if not (truthy words)
      then some none
      else member "id" (or_else chat empty_object) >>= λ known.
          if known
          then some_of
              (inbound_of message (or_else chat empty_object) (or_else from_ empty_object) words)
          else some none

  abbrev parse_dict : Value → Option (Option InboundMessage)
  parse_dict (obj fs) = parse_message (obj fs)
  parse_dict v = some none

  unfoldable pub parse : Value → Option (Option InboundMessage)
  parse payload = get "message" null payload >>= λ message.
      get "edited_message" null payload >>= λ edited. parse_dict (or_else message edited)

unfoldable pub lstrip_newlines : Text → Text
lstrip_newlines [] = []
lstrip_newlines (c ∷ cs) = if c == 10 then lstrip_newlines cs else c ∷ cs

-- Where a text is cut, for a limit it exceeds: `rfind` is -1 where there is no newline.
abbrev cut_at : ℕ → Option ℕ → ℕ
cut_at limit none = limit
cut_at limit (some i) = if ltb i (limit / 2) then limit else i

unfoldable pub cut : ℕ → Text → ℕ
cut limit remaining = cut_at limit (rfind (10 ∷ []) (take limit remaining))

-- The loop, whose fuel is the length of the text: every round but one of a limit of 1 takes a character off.
unfoldable pub split_loop : ℕ → ℕ → Text → List Text
split_loop zero limit remaining = []
split_loop (suc fuel) limit [] = []
split_loop (suc fuel) limit (c ∷ cs) =
    let remaining = c ∷ cs in
    let n = cut limit remaining in
    let later = split_loop fuel limit (lstrip_newlines (drop n remaining)) in
    if leb (length remaining) limit then remaining ∷ [] else take n remaining ∷ later

unfoldable pub split : Text → ℕ → List Text
split s limit =
    if leb (length s) limit then or_empty_response s ∷ [] else split_loop (length s) limit s

pub record Request : Type 0 where
  pub chat_id : String
  pub chunk : Text
  pub reply_to_message_id : Option String

-- Only the first request quotes the message that is answered.
abbrev requests_from : Bool → OutboundMessage → List Text → List Request
requests_from is_first m [] = []
requests_from is_first m (chunk ∷ chunks) =
    record {
      chat_id = m.conversation_id;
      chunk = chunk;
      reply_to_message_id =
          if not (str_eq m.reply_to "") && is_first then some m.reply_to else none;
    }
    ∷ requests_from false m chunks

unfoldable pub requests_of : OutboundMessage → List Request
requests_of m = requests_from true m (split (codes m.text) max_message_chars)

abbrev pub accepted : Response → Bool
accepted response = response.status == 200

unfoldable pub send :
    (ℕ → Request → Option Response)
    → ChannelCredentials
    → OutboundMessage
    → DeliveryResult × List Request
send post credentials m =
    if str_eq credentials.token ""
    then (record { ok = false; sent = 0 }, [])
    else post_all post accepted 0 (requests_of m)

-- What Telegram is asked for when a webhook is registered: the address, and the secret it is to send.
pub record Registration : Type 0 where
  pub url : String
  pub secret_token : Option String

abbrev registration_of : ChannelCredentials → String → Registration
registration_of credentials url = record {
  url = url;
  secret_token = if str_eq credentials.secret "" then none else some credentials.secret;
}

abbrev registered : Option Response → Option DeliveryResult
registered none = none
registered (some response) = some (record { ok = response.status == 200; sent = 0 })

-- The result is `none` when Telegram cannot be reached, which nothing here catches.
unfoldable pub register_webhook :
    (Registration → Option Response) → ChannelCredentials → String → Option DeliveryResult
register_webhook post credentials url =
    if str_eq credentials.token ""
    then some (record { ok = false; sent = 0 })
    else registered (post (registration_of credentials url))
