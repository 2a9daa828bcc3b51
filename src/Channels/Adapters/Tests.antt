-- ===== src/Channels/Adapters/Tests.antt =====
-- The channel adapters at concrete messages.
use hours_x.Prelude.{
  ℕ, List, [], ◌∷◌, true, false, Option, none, some, String, All, ◌≡◌, refl, arith,
}
use hours_x.Json.{Value, num, text, find, dict, list}
use hours_x.Channels.{InboundMessage, OutboundMessage, telegram}
use hours_x.Channels.Adapters.{Text, Response, ChannelCredentials}
use hours_x.Channels.Adapters.Telegram
use hours_x.Channels.Adapters.Whatsapp
use hours_x.Prelude.Text.{is_one_of, decimal}
use hours_x.Channels.Adapters.Gmail.{Answer, list_history, ids_in, all_added, with_added}
use hours_x.Channels.Adapters.History.{Gives, list_history_lem}
use hours_x.Channels.Adapters.Split.{Fits, words, flat, split_lem}
use hours_x.Channels.Adapters.Delivery.{Outcome, send-Outcome}

-- "ab", a newline and "cdef".
abbrev two_lines : Text
two_lines = 98 ∷ 10 ∷ 99 ∷ 100 ∷ 101 ∷ 102 ∷ []

split_lem_example :
    All (Fits 4) (Telegram.split (97 ∷ two_lines) 4)
    × (words (flat (Telegram.split (97 ∷ two_lines) 4)) ≡ words (97 ∷ two_lines))
    × All (Fits 4) (Whatsapp.split (97 ∷ two_lines) 4)
    × (flat (Whatsapp.split (97 ∷ two_lines) 4) ≡ 97 ∷ two_lines)
split_lem_example = split_lem 4 97 two_lines (omega arith)

split_at_newline :
    Telegram.split (97 ∷ two_lines) 4 ≡ (97 ∷ 98 ∷ []) ∷ (99 ∷ 100 ∷ 101 ∷ 102 ∷ []) ∷ []
unfolding Telegram.split Telegram.split_loop Telegram.cut Telegram.lstrip_newlines
    hours_x.Knowledge.rfind hours_x.Knowledge.starts
split_at_newline = refl

abbrev credentials : ChannelCredentials
credentials = record { token = "t"; secret = "s"; account_id = "a" }

abbrev reply : OutboundMessage
reply = record { conversation_id = "c"; text = "done"; subject = ""; reply_to = "7" }

abbrev answers : {R : Type 0} → ℕ → R → Option Response
answers k r = some (record { status = 200; description = "" })

abbrev fails : {R : Type 0} → ℕ → R → Option Response
fails k r = some (record { status = 429; description = "slow down" })

send-Outcome_example :
    Outcome answers Telegram.accepted 0
      (Telegram.requests_of reply)
      (Telegram.send answers credentials reply).0
      (Telegram.send answers credentials reply).1
    × Outcome fails Whatsapp.accepted 0
        (Whatsapp.requests_of reply)
        (Whatsapp.send fails credentials reply).0
        (Whatsapp.send fails credentials reply).1
send-Outcome_example = send-Outcome answers fails credentials reply refl refl

-- A message, and its edit, which has the same id.
abbrev update : String → String → Value
update key said = dict (
    (
      key,
      dict (("message_id", num 5) ∷ ("chat", dict (("id", num 9) ∷ [])) ∷ ("text", text said) ∷ []),
    )
    ∷ [])

abbrev seen : String → InboundMessage
seen said = record {
  channel = telegram;
  conversation_id = "9";
  sender_id = "9";
  external_id = "5";
  text = said;
  subject = "";
}

edit_read : Telegram.parse (λ v. "") (update "edited_message" "stop") ≡ some (some (seen "stop"))
unfolding Telegram.parse find Telegram.inbound_of Telegram.display_of hours_x.Prelude.Text.join
    hours_x.Prelude.Text.decimal
edit_read = refl

abbrev note : String → String → Value
note id said = dict (
    ("from", text "4477")
    ∷ ("id", text id)
    ∷ ("type", text "text")
    ∷ ("text", dict (("body", text said) ∷ []))
    ∷ [])

abbrev batch : List Value → Value
batch messages = dict (
    (
      "entry",
      list (
          dict (
            ("changes", list (dict (("value", dict (("messages", list messages) ∷ [])) ∷ []) ∷ []))
            ∷ [])
          ∷ []),
    )
    ∷ [])

-- Of two messages in one notification the second is not read.
batch_read :
    Whatsapp.parse (λ v. "") (batch (note "1" "one" ∷ note "2" "two" ∷ []))
    ≡ Whatsapp.parse (λ v. "") (batch (note "1" "one" ∷ []))
unfolding Whatsapp.parse Whatsapp.change_of find Whatsapp.display_of
batch_read = refl

-- A mailbox to which a message was added, and the reply to it.
abbrev entry : Value → Value
entry message = dict (("messagesAdded", list (dict (("message", message) ∷ []) ∷ [])) ∷ [])

abbrev mailbox : Answer
mailbox = record {
  status = 200;
  body = dict (
      (
        "history",
        list (
            entry (dict (("id", text "m1") ∷ ("labelIds", list (text "INBOX" ∷ [])) ∷ []))
            ∷ entry (dict (("id", text "m2") ∷ ("labelIds", list (text "SENT" ∷ [])) ∷ []))
            ∷ []),
      )
      ∷ ("historyId", num 8)
      ∷ []);
}

list_history_lem_example : Gives "7" (some mailbox) (text "m1" ∷ []) "8"
unfolding list_history ids_in all_added with_added find is_one_of decimal
list_history_lem_example =
    list_history_lem (λ v. "") credentials "7" "8" (some mailbox) (text "m1" ∷ []) refl refl refl
