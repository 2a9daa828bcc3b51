-- ===== src/Channels/Dispatch.antt =====
-- Settling the replies that are owed: src/hoursx/channels/dispatch.py. The channels that are configured
-- and what the services behind them answer are parameters; a crash between two transactions is a
-- history of transactions that stops there.
pub mod Settles
pub mod Owed
pub mod Liveness
pub mod Claims
pub mod Race
use Prim.Native.String.{◌++◌ as text_append}
use hours_x.Prelude.{
  ℕ, suc, ◌+◌, List, [], ◌∷◌, ◌++◌, Bool, true, false, ◌&&◌, ◌||◌, not, Option, none, some, String,
  max, if◌then◌else◌, ltb, leb, ◌==◌, str_eq, take,
}
use hours_x.Runs.Store.{
  Run, Table, find_run, RunStatus, succeeded, failed, cancelled, queued, running, awaiting_approval,
  is_terminal,
}
use hours_x.Channels.{
  ChannelKind, OutboundMessage, ReplyStatus, pending, sent, abandoned, ChannelReply, Replies,
}

abbrev pub is_pending : ReplyStatus → Bool
is_pending pending = true
is_pending _ = false

abbrev pub is_awaiting : RunStatus → Bool
is_awaiting awaiting_approval = true
is_awaiting _ = false

abbrev pub or_else : Option String → String → String
or_else none text = text
or_else (some s) text = if str_eq s "" then text else s

text_of : RunStatus → Option String → Option String → String
text_of succeeded answer error = or_else answer "I finished, but produced no answer to send."
text_of cancelled answer error = "That request was cancelled before I could finish it."
text_of _ answer error =
    text_append "I could not finish that: " (or_else error "the run did not succeed")

unfoldable pub answer_text : Run → String
unfolding text_of
answer_text run = text_of run.status run.final_answer run.error

abbrev pub approval_notice : String
approval_notice =
    "I need a human decision before I can continue. Once someone approves it in the HoursX console I will finish and reply here."

unfoldable pub find_reply : String → Replies → Option ChannelReply
find_reply id [] = none
find_reply id (r ∷ rs) = if str_eq r.id id then some r else find_reply id rs

-- UPDATE … WHERE id = ? AND p, with the number of rows that it counts.
unfoldable pub update_reply :
    String → (ChannelReply → Bool) → (ChannelReply → ChannelReply) → Replies → Replies
update_reply id p f [] = []
update_reply id p f (r ∷ rs) = (if str_eq r.id id && p r then f r else r) ∷ update_reply id p f rs

unfoldable pub matched : String → (ChannelReply → Bool) → Replies → ℕ
matched id p [] = 0
matched id p (r ∷ rs) = if str_eq r.id id && p r then suc (matched id p rs) else matched id p rs

-- A run that vanished, or whose status is worth reporting.
abbrev pub reportable : Option Run → Bool
reportable none = true
reportable (some run) = is_terminal run.status || is_awaiting run.status

unfoldable pub is_due : ℕ → Table → ChannelReply → Bool
is_due max_attempts runs r =
    is_pending r.status && ltb r.attempts max_attempts && reportable (find_run r.run_id runs)

unfoldable pub due_ids : ℕ → Table → Replies → List String
due_ids max_attempts runs [] = []
due_ids max_attempts runs (r ∷ rs) =
    if is_due max_attempts runs r
    then r.id ∷ due_ids max_attempts runs rs
    else due_ids max_attempts runs rs

-- The rows stand in the order of their creation.
unfoldable pub due_replies : ℕ → Table → Replies → List String
due_replies max_attempts runs replies = take 100 (due_ids max_attempts runs replies)

-- The condition of the claim: the interim note is not sent yet, or the count is the one that was read.
abbrev pub claim_test : Bool → ℕ → ChannelReply → Bool
claim_test true attempts r = is_pending r.status && not r.interim_sent
claim_test false attempts r = is_pending r.status && r.attempts == attempts

abbrev pub claim_values : Bool → ℕ → ChannelReply → ChannelReply
claim_values true attempts r = record r { interim_sent = true }
claim_values false attempts r = record r { attempts = attempts + 1 }

unfoldable pub claim : String → Bool → ℕ → Replies → Bool × Replies
claim id interim attempts replies = (
  matched id (claim_test interim attempts) replies == 1,
  update_reply id (claim_test interim attempts) (claim_values interim attempts) replies,
)

abbrev pub any_row : ChannelReply → Bool
any_row r = true

abbrev pub abandon : ChannelReply → ChannelReply
abandon r = record r { status = abandoned }

-- After the service has answered a final message.
abbrev pub outcome_row : ℕ → Bool → ℕ → ChannelReply → ChannelReply
outcome_row max_attempts true now r = record r { status = sent; sent_at = some now }
outcome_row max_attempts false now r =
    if leb max_attempts r.attempts then record r { status = abandoned } else r

unfoldable pub record_outcome : ℕ → String → Bool → ℕ → Replies → Replies
record_outcome max_attempts id ok now =
    update_reply id any_row (λ r. outcome_row max_attempts ok now r)

unfoldable pub message_for : Bool → Run → ChannelReply → OutboundMessage
message_for interim run r = record {
  conversation_id = r.conversation_id;
  text = if interim then approval_notice else answer_text run;
  subject = r.subject;
  reply_to = r.reply_to;
}

-- The configured channels, the setting and the moment of the sweep; `send` is what the service says to
-- a message, which may differ with the attempt. It answers: an exception of it, which the adapters catch
-- when it is one of their HTTP client, would end the sweep with the claim made and the outcome not
-- recorded, and is left out here; in a history of transactions it is one that stops there.
pub record Dispatcher : Type 0 where
  pub channel_reply_max_attempts : ℕ
  pub configured : ChannelKind → Bool
  pub send : OutboundMessage → ℕ → Bool
  pub now : ℕ

-- The replies after a step, and the messages that went out in it.
abbrev pub Stepped : Type 0
Stepped = Replies × List OutboundMessage

module _ (d : Dispatcher) where
  unfoldable pub max_attempts : ℕ
  max_attempts = max 1 d.channel_reply_max_attempts

  after_send : ChannelReply → Bool → Bool → OutboundMessage → Replies → Stepped
  after_send r true ok m replies = (replies, m ∷ [])
  after_send r false ok m replies = (record_outcome max_attempts r.id ok d.now replies, m ∷ [])

  after_claim : ChannelReply → Run → Bool → Bool × Replies → Stepped
  unfolding after_send
  after_claim r run interim (false, replies) = (replies, [])
  after_claim r run interim (true, replies) =
      let m = message_for interim run r in after_send r interim (d.send m r.attempts) m replies

  deliver : Bool → ChannelReply → Run → Replies → Stepped
  unfolding after_claim
  deliver interim r run replies =
      if not (d.configured r.channel)
      then (update_reply r.id (λ x. is_pending x.status) abandon replies, [])
      else after_claim r run interim (claim r.id interim r.attempts replies)

  with_run : ChannelReply → Option Run → Replies → Stepped
  unfolding deliver
  with_run r none replies = (update_reply r.id any_row abandon replies, [])
  with_run r (some run) replies =
      if is_awaiting run.status && r.interim_sent
      then (replies, [])
      else deliver (is_awaiting run.status) r run replies

  with_reply : Table → Option ChannelReply → Replies → Stepped
  unfolding with_run
  with_reply runs none replies = (replies, [])
  with_reply runs (some r) replies =
      if is_pending r.status then with_run r (find_run r.run_id runs) replies else (replies, [])

  unfoldable pub settle : Table → String → Replies → Stepped
  unfolding with_reply
  settle runs id replies = with_reply runs (find_reply id replies) replies

  unfoldable pub settle_all : Table → List String → Replies → Stepped
  settle_all runs [] replies = (replies, [])
  settle_all runs (id ∷ ids) replies =
      let (after, out) = settle runs id replies in
      let (last, more) = settle_all runs ids after in (last, out ++ more)

  unfoldable pub sweep_once : Table → Replies → Stepped
  sweep_once runs replies = settle_all runs (due_replies max_attempts runs replies) replies
