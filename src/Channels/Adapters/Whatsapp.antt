-- ===== src/Channels/Adapters/Whatsapp.antt =====
-- The WhatsApp Business Cloud API: src/hoursx/channels/whatsapp.py. The keyed digest of a body is a parameter.
use hours_x.Prelude.{
  ℕ, zero, suc, List, [], ◌∷◌, Bool, true, false, ◌||◌, ◌&&◌, Option, none, some, String,
  if◌then◌else◌, str_eq, leb, ltb, length, take, drop, map,
}
use hours_x.Prelude.Dict.{lookup}
use hours_x.Prelude.Text.{after_prefix}
use hours_x.Json.{
  Value, null, text, arr, obj, ◌>>=◌, get, item, first, or_else, truthy, as_text, is_text,
  empty_object, list,
}
use hours_x.Channels.{InboundMessage, OutboundMessage, whatsapp}
use hours_x.Channels.Adapters.{
  ChannelCredentials, DeliveryResult, Response, Text, codes, or_empty_response, post_all, member,
  str_of,
}

abbrev pub max_message_chars : ℕ
max_message_chars = 4096

abbrev or_empty : Option String → String
or_empty none = ""
or_empty (some s) = s

abbrev is_signed : String → Option String → Bool
is_signed expected none = false
is_signed expected (some provided) = str_eq provided expected

-- Whether the header carries the digest of the body under the application's secret.
unfoldable pub verify :
    (String → String → String) → ChannelCredentials → List (String × String) → String → Bool
verify sign credentials headers body =
    if str_eq credentials.secret ""
    then true
    else is_signed (sign credentials.secret body)
        (after_prefix "sha256=" (or_empty (lookup "x-hub-signature-256" headers)))

-- The subscription that the service asks to confirm, with its challenge.
unfoldable pub verification_challenge : ChannelCredentials → List (String × String) → Option String
verification_challenge credentials params =
    if str_eq (or_empty (lookup "hub.mode" params)) "subscribe"
      && str_eq (or_empty (lookup "hub.verify_token" params)) credentials.secret
    then lookup "hub.challenge" params
    else none

-- What a notification is about; `none` is a KeyError, an IndexError or a TypeError.
unfoldable pub change_of : Value → Option Value
change_of payload = do
  entries ← item "entry" payload
  entry ← first entries
  changes ← item "changes" entry
  change ← first changes
  item "value" change

-- `message.get(type, {})`; lists and dictionaries are no keys, and other values than texts are not there.
abbrev pub part_of : Value → Value → Option Value
part_of message (text kind) = get kind empty_object message
part_of message (arr vs) = none
part_of message (obj fs) = none
part_of message v = some empty_object

-- The caption of a message that is no text, under the key that its type names.
abbrev pub caption_in : Value → Bool → Option Value
caption_in part false = some (text "")
caption_in part true = item "caption" part

abbrev pub caption_of : Value → Option Value
caption_of message = do
  type ← get "type" (text "") message
  part ← part_of message type
  known ← member "caption" part
  caption_in part known

abbrev pub body_of : Value → Option Value
body_of message = get "text" empty_object message >>= get "body" (text "")

unfoldable pub text_of : Value → Option Value
text_of message = get "type" null message >>= λ kind.
    if is_text "text" kind then body_of message else caption_of message

unfoldable pub display_of : Value → Option Value
display_of change = do
  listed ← get "contacts" null change
  contact ← first (or_else listed (list (empty_object ∷ [])))
  profile ← get "profile" empty_object contact
  get "name" (text "") profile

module _ (repr : Value → String) where
  abbrev inbound_of : Value → Value → String → Value → Option (Option InboundMessage)
  inbound_of change message sender said = do
    display ← display_of change
    id ← get "id" (text "") message
    shown ← as_text display
    s ← as_text said
    some (
        some (record {
          channel = whatsapp;
          conversation_id = sender;
          sender_id = sender;
          external_id = str_of repr id;
          text = s;
          subject = "";
        }))

  abbrev sent_by : Value → Value → String → Option (Option InboundMessage)
  sent_by change message sender =
      if str_eq sender ""
      then some none
      else (text_of message >>= λ said.
          if truthy said then inbound_of change message sender said else some none)

  -- Of several messages the first.
  abbrev parse_messages : Value → Value → Option (Option InboundMessage)
  parse_messages change messages =
      if truthy messages
      then (first messages >>= λ message.
          get "from" (text "") message >>= λ from_. sent_by change message (str_of repr from_))
      else some none

  abbrev parse_change : Option Value → Option (Option InboundMessage)
  parse_change none = some none
  parse_change (some change) = get "messages" null change >>= parse_messages change

  -- `some none` is what is no message; `none` is an exception.
  unfoldable pub parse : Value → Option (Option InboundMessage)
  parse payload = parse_change (change_of payload)

-- The slices of a text, as many as it has characters at most.
unfoldable pub slices : ℕ → ℕ → Text → List Text
slices zero limit s = []
slices (suc fuel) limit [] = []
slices (suc fuel) limit (c ∷ cs) = take limit (c ∷ cs) ∷ slices fuel limit (drop limit (c ∷ cs))

unfoldable pub split : Text → ℕ → List Text
split s limit = if leb (length s) limit then or_empty_response s ∷ [] else slices (length s) limit s

pub record Request : Type 0 where
  pub to : String
  pub body : Text

abbrev request_to : String → Text → Request
request_to to chunk = record { to = to; body = chunk }

unfoldable pub requests_of : OutboundMessage → List Request
requests_of m = map (request_to m.conversation_id) (split (codes m.text) max_message_chars)

abbrev pub accepted : Response → Bool
accepted response = ltb response.status 400

unfoldable pub send :
    (ℕ → Request → Option Response)
    → ChannelCredentials
    → OutboundMessage
    → DeliveryResult × List Request
send post credentials m =
    if str_eq credentials.token "" || str_eq credentials.account_id ""
    then (record { ok = false; sent = 0 }, [])
    else post_all post accepted 0 (requests_of m)
