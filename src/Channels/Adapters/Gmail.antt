-- ===== src/Channels/Adapters/Gmail.antt =====
-- The Gmail channel: src/hoursx/channels/gmail.py. The decoders of base64 and of JSON are parameters, and so is
-- what the service answers.
use hours_x.Prelude.{
  ℕ, List, [], ◌∷◌, Bool, true, false, not, ◌||◌, Option, none, some, String, if◌then◌else◌, str_eq,
  ◌==◌, any_of, all_of,
}
use hours_x.Prelude.Text.{is_one_of}
use hours_x.Json.{
  Value, Items, Fields, null, bool, num, other_num, text, arr, obj, nil, cons, end, field, ◌>>=◌,
  find, get, item, each, to_list, or_default, or_else, truthy, as_text, is_text, empty_object,
  empty_array,
}
use hours_x.Channels.{InboundMessage, gmail}
use hours_x.Channels.Adapters.{ChannelCredentials, str_of}

-- A status and the decoded body.
pub record Answer : Type 0 where
  pub status : ℕ
  pub body : Value

-- The labels of the agent's own mail and of what is no mail.
abbrev pub own_labels : List String
own_labels = "SENT" ∷ "DRAFT" ∷ "TRASH" ∷ []

abbrev pub is_own : Value → Bool
is_own (text label) = is_one_of label own_labels
is_own v = false

-- The members of a set; lists and dictionaries have no hash.
abbrev pub is_hashable : Value → Bool
is_hashable (arr vs) = false
is_hashable (obj fs) = false
is_hashable v = true

abbrev keys_of : Fields → List Value
keys_of end = []
keys_of (field k v fs) = text k ∷ keys_of fs

-- `set(v)`; of a text it holds characters, which are no labels.
abbrev pub labels_of : Value → Option (List Value)
labels_of (arr vs) = if all_of is_hashable (to_list vs) then some (to_list vs) else none
labels_of (text s) = some []
labels_of (obj fs) = some (keys_of fs)
labels_of v = none

abbrev pub id_of : List Value → Value → List Value → List Value
id_of labels id rest = if any_of is_own labels then rest else if truthy id then id ∷ rest else rest

-- The id of an entry's message, before those of the others.
unfoldable pub with_added : Value → List Value → Option (List Value)
with_added added rest = do
  message ← get "message" empty_object added
  listed ← get "labelIds" empty_array message
  labels ← labels_of (or_else listed empty_array)
  id ← get "id" null message
  some (id_of labels id rest)

unfoldable pub all_added : List Value → List Value → Option (List Value)
all_added [] rest = some rest
all_added (added ∷ others) rest = all_added others rest >>= with_added added

unfoldable pub ids_in : List Value → Option (List Value)
ids_in [] = some []
ids_in (entry ∷ entries) = do
  rest ← ids_in entries
  listed ← get "messagesAdded" empty_array entry
  added ← each (or_else listed empty_array)
  all_added added rest

module _ (decode : String → Option String) (lower : String → String) where
  abbrev or_null : Option Value → Value
  or_null none = null
  or_null (some v) = v

  abbrev data_in : Fields → Option Value
  data_in fs = get "body" empty_object (obj fs) >>= get "data" null

  -- The text of a part itself, if it is plain and has one.
  unfoldable pub own_text : Fields → Option (Option String)
  own_text fs =
      if is_text "text/plain" (or_null (find "mimeType" fs))
      then (data_in fs >>= λ v.
          if truthy v then (do s ← as_text v; t ← decode s; some (some t)) else some none)
      else some none

  -- What a part gives that has no text itself is what its parts give.
  abbrev pub or_below : Option (Option String) → Option String → Option String
  or_below none below = none
  or_below (some none) below = below
  or_below (some (some s)) below = some s

  -- The first text that is not empty.
  abbrev pub first_text : Option String → Option String → Option String
  first_text none later = none
  first_text (some s) later = if str_eq s "" then later else some s

  unfoldable mutual
    pub extract_text : Value → Option String
    extract_text (obj fs) = or_below (own_text fs) (extract_parts fs)
    extract_text (arr vs) = none
    extract_text null = none
    extract_text (bool b) = none
    extract_text (num n) = none
    extract_text (other_num s) = none
    extract_text (text s) = none

    pub extract_items : Items → Option String
    extract_items nil = some ""
    extract_items (cons v vs) = first_text (extract_text v) (extract_items vs)

    pub extract_parts : Fields → Option String
    extract_parts end = some ""
    extract_parts (field key v fs) =
        let rest = extract_parts fs in
        let here = extract_listed v in if str_eq key "parts" then here else rest

    pub extract_listed : Value → Option String
    extract_listed (arr vs) = extract_items vs
    extract_listed (obj end) = some ""
    extract_listed (obj (field k v fs)) = none
    extract_listed null = some ""
    extract_listed (bool b) = if b then none else some ""
    extract_listed (num n) = if n == 0 then some "" else none
    extract_listed (other_num s) = none
    extract_listed (text s) = if str_eq s "" then some "" else none

  unfoldable pub headers_of : List Value → Option (List (String × Value))
  headers_of [] = some []
  headers_of (header ∷ headers) = do
    named ← item "name" header
    name ← as_text named
    value ← item "value" header
    rest ← headers_of headers
    some ((lower name, value) ∷ rest)

  abbrev last_of : String → List (String × Value) → Option Value
  last_of name [] = none
  last_of name ((k, v) ∷ rest) = elim (last_of name rest) [
    | none ↦ if str_eq k name then some v else none
    | some w ↦ some w
  ]

  -- The last of the headers of a name counts.
  abbrev header : String → List (String × Value) → Value
  header name headers = or_default (text "") (last_of name headers)

  abbrev pub message_of : String → Value → Option InboundMessage
  message_of message_id body = do
    listing ← get "payload" empty_object body
    listed ← get "headers" empty_array listing
    entries ← each listed
    headers ← headers_of entries
    thread ← get "threadId" (text message_id) body
    said ← extract_text listing
    snippet ← get "snippet" (text "") body
    conversation ← as_text thread
    sender ← as_text (header "from" headers)
    subject ← as_text (header "subject" headers)
    words ← as_text (or_else (text said) snippet)
    some (record {
      channel = gmail;
      conversation_id = conversation;
      sender_id = sender;
      external_id = message_id;
      text = words;
      subject = subject;
    })

  -- The message of an id; `some none` is one that is not to be had, and `none` is an exception.
  unfoldable pub fetch_message :
      ChannelCredentials → String → Answer → Option (Option InboundMessage)
  fetch_message credentials message_id answer =
      if str_eq credentials.token "" || not (answer.status == 200)
      then some none
      else (do m ← message_of message_id answer.body; some (some m))

module _ (repr : Value → String) where
  module _ (decode : String → Option String) (loads : String → Option Value) where
    abbrev pointer : String → Option Value → Option (Option InboundMessage)
    pointer address none = some none
    pointer address (some notification) = do
      from_ ← get "emailAddress" (text address) notification
      history ← get "historyId" (text "") notification
      (if str_eq (str_of repr history) "" then some none else (do
        sender ← as_text from_
        some (
            some (record {
              channel = gmail;
              conversation_id = str_of repr history;
              sender_id = sender;
              external_id = "";
              text = "";
              subject = "";
            }))))

    abbrev parse_message : String → Value → Option (Option InboundMessage)
    parse_message address (obj fs) = elim (find "data" fs) [
      | none ↦ some none
      | some payload ↦ pointer address (as_text payload >>= decode >>= loads)
    ]
    parse_message address v = some none

    -- A pointer at the mailbox that has changed; `some none` is what is none, and `none` is an exception.
    unfoldable pub parse : ChannelCredentials → Value → Option (Option InboundMessage)
    parse credentials payload = get "message" null payload >>= parse_message credentials.account_id

  abbrev pub history_of : String → Value → Option (List Value × String)
  history_of start body = do
    listed ← get "history" empty_array body
    entries ← each (or_else listed empty_array)
    ids ← ids_in entries
    position ← get "historyId" null body
    some (ids, str_of repr (or_else position (text start)))

  abbrev pub history_after : String → Option Answer → Option (List Value × String)
  history_after start none = some ([], start)
  history_after start (some answer) =
      if answer.status == 404
      then some ([], "")
      else if answer.status == 200
      then history_of start answer.body
      else some ([], start)

  -- The ids of the messages since a position, and the new position.
  unfoldable pub list_history :
      ChannelCredentials → String → Option Answer → Option (List Value × String)
  list_history credentials start answer =
      if str_eq credentials.token "" || str_eq start ""
      then some ([], start)
      else history_after start answer
