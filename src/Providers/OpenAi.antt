-- ===== src/Providers/OpenAi.antt =====
-- The chat-completions API: src/hoursx/providers/openai_compat.py. The coder of JSON is a parameter, and so is
-- what the server answers; the HTTP client and the embeddings are left out. The index of a call is a natural
-- number here.
pub mod Streamed
pub mod Assembly
pub mod RoundTrip
pub mod Request
use Prim.Native.String.{◌++◌ as text_append}
use hours_x.Prelude.{
  ℕ, suc, List, [], ◌∷◌, ◌++◌, Bool, true, false, Option, none, some, String, if◌then◌else◌, str_eq,
  ◌==◌, ltb, map, length, non_empty,
}
use hours_x.Prelude.Text.{concat, decimal}
use hours_x.Json.{
  Value, null, num, text, bool, ◌>>=◌, get, item, each, first, truthy, or_else, as_text, as_dict,
  as_count, is_text, empty_object, empty_array, dict, list, join_texts,
}
use hours_x.Providers.{
  ChatRole, system, user, assistant, tool, role_value, ToolCall, ToolDescriptor, ChatMessage,
  ChatRequest, no_usage, FinishReason, stop, tool_calls_made, length_reached, ChatResult, answer,
  text_part, call_part, StreamDelta,
}
use hours_x.Providers.Anthropic.{make_call}
use hours_x.Providers.Anthropic.Request.{opt_text}
use hours_x.Providers.Sse.{Yields, and_rest, run_lines, close}

abbrev pub finish_of : Value → FinishReason
finish_of reason =
    if is_text "tool_calls" reason
    then tool_calls_made
    else if is_text "length" reason
    then length_reached
    else stop

-- What is assembled of a call, under its index, in the order of the first fragments.
pub record Slot : Type 0 where
  pub id : Value
  pub name : Value
  pub args : List Value

abbrev pub empty_slot : Slot
empty_slot = record { id = text ""; name = text ""; args = [] }

abbrev pub Slots : Type 0
Slots = List (ℕ × Slot)

-- `slots.setdefault(index, empty)` and the changes of the slot.
unfoldable pub update : ℕ → (Slot → Slot) → Slots → Slots
update i f [] = (i, f empty_slot) ∷ []
update i f ((j, slot) ∷ slots) =
    if j == i then (j, f slot) ∷ slots else (j, slot) ∷ update i f slots

-- A fragment of a call: its index, and the values of its id, its name and its arguments.
pub record Fragment : Type 0 where
  pub index : ℕ
  pub id : Value
  pub name : Value
  pub arguments : Value

unfoldable pub fragment_of : Value → Option Fragment
fragment_of raw = do
  index ← get "index" (num 0) raw >>= as_count
  id ← get "id" null raw
  fn ← get "function" empty_object raw
  name ← get "name" null fn
  arguments ← get "arguments" null fn
  some (record { index = index; id = id; name = name; arguments = arguments })

abbrev pub add_fragment : Fragment → Slot → Slot
add_fragment f slot = record {
  id = if truthy f.id then f.id else slot.id;
  name = if truthy f.name then f.name else slot.name;
  args = if truthy f.arguments then slot.args ++ f.arguments ∷ [] else slot.args;
}

unfoldable pub merge : List Fragment → Slots → Slots
merge [] slots = slots
merge (f ∷ fs) slots = merge fs (update f.index (add_fragment f) slots)

unfoldable pub fragments_of : List Value → Option (List Fragment)
fragments_of [] = some []
fragments_of (raw ∷ raws) = do f ← fragment_of raw; fs ← fragments_of raws; some (f ∷ fs)

-- `sorted(slots.items())`, whose keys differ.
unfoldable pub insert_sorted : ℕ × Slot → Slots → Slots
insert_sorted entry [] = entry ∷ []
insert_sorted entry (e ∷ es) =
    if ltb entry.0 e.0 then entry ∷ e ∷ es else e ∷ insert_sorted entry es

unfoldable pub sorted : Slots → Slots
sorted [] = []
sorted (entry ∷ entries) = insert_sorted entry (sorted entries)

-- The variables of the loop of `stream`.
pub record State : Type 0 where
  pub text_parts : List String
  pub partial_calls : Slots
  pub finish : FinishReason

abbrev pub start : State
start = record { text_parts = []; partial_calls = []; finish = stop }

abbrev pub said : State → Option String → Yields State
said s none = ([], none)
said s (some part) =
    (text_part part ∷ [], some (record s { text_parts = s.text_parts ++ part ∷ [] }))

abbrev pub says : State → Value → Yields State
says s content = if truthy content then said s (as_text content) else ([], some s)

abbrev pub finish_after : FinishReason → Value → FinishReason
finish_after before reason = if truthy reason then finish_of reason else before

-- What follows the content in the body of the loop.
abbrev pub settle : State → Value → Value → Option State
settle s delta choice = do
  raw_calls ← get "tool_calls" null delta
  raws ← each (or_else raw_calls empty_array)
  fragments ← fragments_of raws
  reason ← get "finish_reason" null choice
  some (record s {
    partial_calls = merge fragments s.partial_calls;
    finish = finish_after s.finish reason;
  })

abbrev pub choice_of : Value → Option Value
choice_of chunk =
    get "choices" null chunk >>= λ choices. first (or_else choices (list (empty_object ∷ [])))

abbrev pub quiet : Option State → Yields State
quiet none = ([], none)
quiet (some s) = ([], some s)

abbrev pub on_content : State → Value → Value → Option Value → Yields State
on_content s delta choice none = ([], none)
on_content s delta choice (some content) =
    and_rest (says s content) (λ t. quiet (settle t delta choice))

abbrev pub on_delta : State → Value → Option Value → Yields State
on_delta s choice none = ([], none)
on_delta s choice (some delta) = on_content s delta choice (get "content" null delta)

abbrev pub on_choice : State → Option Value → Yields State
on_choice s none = ([], none)
on_choice s (some choice) = on_delta s choice (get "delta" empty_object choice)

unfoldable pub step : State → Value → Yields State
step s chunk = on_choice s (choice_of chunk)

module _ (loads : String → Option Value) where
  unfoldable pub call_of : Value → Option ToolCall
  call_of raw = do
    id ← item "id" raw
    fn ← item "function" raw
    name ← item "name" fn
    written ← get "arguments" null fn
    json ← as_text (or_else written (text "{}"))
    arguments ← loads json
    make_call id name arguments

  unfoldable pub calls_of : List Value → Option (List ToolCall)
  calls_of [] = some []
  calls_of (raw ∷ raws) = do call ← call_of raw; calls ← calls_of raws; some (call ∷ calls)

  unfoldable pub parse_choice : Value → Value → Option ChatResult
  parse_choice choice usage_raw = do
    message ← get "message" empty_object choice
    raw_calls ← get "tool_calls" null message
    raws ← each (or_else raw_calls empty_array)
    calls ← calls_of raws
    reason ← get "finish_reason" null choice
    written ← get "content" null message
    content ← as_text (or_else written (text ""))
    counted_in ← get "prompt_tokens" (num 0) usage_raw
    input ← as_count counted_in
    counted_out ← get "completion_tokens" (num 0) usage_raw
    output ← as_count counted_out
    some (record {
      message = answer content calls;
      usage = record { input_tokens = input; output_tokens = output };
      finish_reason = finish_of reason;
    })

  -- What `complete` makes of the decoded body.
  unfoldable pub parse : Value → Option ChatResult
  parse body = do
    choices ← item "choices" body
    choice ← first choices
    usage ← get "usage" empty_object body
    parse_choice choice usage

  -- The call of a slot, after as many others.
  unfoldable pub slot_call : ℕ → Slot → Option ToolCall
  slot_call made slot = do
    joined ← join_texts slot.args
    arguments ← loads (if str_eq joined "" then "{}" else joined)
    make_call (or_else slot.id (text (text_append "call_" (decimal made)))) slot.name arguments

  abbrev pub with_call :
      List ToolCall
      → Option ToolCall
      → (List ToolCall → Yields (List ToolCall))
      → Yields (List ToolCall)
  with_call calls none rest = ([], none)
  with_call calls (some call) rest = and_rest (call_part call ∷ [], some (calls ++ call ∷ [])) rest

  unfoldable pub make_calls : Slots → List ToolCall → Yields (List ToolCall)
  make_calls [] calls = ([], some calls)
  make_calls ((i, slot) ∷ slots) calls =
      with_call calls (slot_call (length calls) slot) (make_calls slots)

  unfoldable pub result_of : State → Yields ChatResult
  result_of s = and_rest (make_calls (sorted s.partial_calls) []) (λ calls. (
    [],
    some (record {
      message = answer (concat s.text_parts) calls;
      usage = no_usage;
      finish_reason = s.finish;
    }),
  ))

  unfoldable pub stream : List String → List StreamDelta
  stream lines = close (run_lines loads true step lines start) result_of
