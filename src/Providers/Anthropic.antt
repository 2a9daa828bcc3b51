-- ===== src/Providers/Anthropic.antt =====
-- The Messages API: src/hoursx/providers/anthropic.py. The decoder of JSON is a parameter, and so is what the
-- service answers; the HTTP client is left out.
pub mod Streamed
pub mod Blocks
pub mod Agreement
pub mod Request
use Prim.Native.String.{◌++◌ as text_append}
use hours_x.Prelude.{
  ℕ, List, [], ◌∷◌, ◌++◌, Bool, true, false, not, Option, none, some, String, if◌then◌else◌, str_eq,
  map, keep_if, non_empty,
}
use hours_x.Prelude.Text.{concat, join}
use hours_x.Json.{
  Value, null, num, text, ◌>>=◌, get, item, each, as_text, as_dict, as_count, is_text, empty_object,
  empty_array, dict, list, join_texts,
}
use hours_x.Providers.{
  ChatRole, system, user, assistant, tool, role_value, ToolCall, ToolDescriptor, ChatMessage,
  ChatRequest, ChatUsage, no_usage, FinishReason, stop, tool_calls_made, length_reached, ChatResult,
  answer, Increment, text_part, call_part, StreamDelta,
}
use hours_x.Providers.Sse.{Yields, run_lines, close}

abbrev pub finish_of : Value → FinishReason
finish_of reason =
    if is_text "tool_use" reason
    then tool_calls_made
    else if is_text "max_tokens" reason
    then length_reached
    else stop

abbrev pub make_call : Value → Value → Value → Option ToolCall
make_call id name arguments = do
  i ← as_text id
  n ← as_text name
  a ← as_dict arguments
  some (record { id = i; name = n; arguments = a })

unfoldable pub call_of : Value → Option ToolCall
call_of block = do
  id ← item "id" block
  name ← item "name" block
  input ← get "input" empty_object block
  make_call id name input

-- The text and the calls of the blocks of an answer.
abbrev pub parse_block :
    Bool → Bool → Value → String × List ToolCall → Option (String × List ToolCall)
parse_block true is_call block (content, calls) = do
  part ← get "text" (text "") block
  s ← as_text part
  some (text_append s content, calls)
parse_block false true block (content, calls) = do
  call ← call_of block
  some (content, call ∷ calls)
parse_block false false block rest = some rest

unfoldable pub parse_blocks : List Value → Option (String × List ToolCall)
parse_blocks [] = some ("", [])
parse_blocks (block ∷ blocks) = parse_blocks blocks >>= λ rest. get "type" null block >>= λ kind.
    parse_block (is_text "text" kind) (is_text "tool_use" kind) block rest

unfoldable pub count_of : String → Value → Option ℕ
count_of key usage = get key (num 0) usage >>= as_count

unfoldable pub parse : Value → Option ChatResult
parse body = do
  content ← get "content" empty_array body
  blocks ← each content
  (said, calls) ← parse_blocks blocks
  usage ← get "usage" empty_object body
  reason ← get "stop_reason" null body
  input ← count_of "input_tokens" usage
  output ← count_of "output_tokens" usage
  some (record {
    message = answer said calls;
    usage = record { input_tokens = input; output_tokens = output };
    finish_reason = finish_of reason;
  })

-- The variables of the loop of `stream`; what is pending of a call is its id and its name.
pub record State : Type 0 where
  pub text_parts : List String
  pub tool_calls : List ToolCall
  pub pending_tool : Option (Value × Value)
  pub pending_json : List Value
  pub finish : FinishReason
  pub usage : ChatUsage

abbrev pub start : State
start = record {
  text_parts = [];
  tool_calls = [];
  pending_tool = none;
  pending_json = [];
  finish = stop;
  usage = no_usage;
}

abbrev pub quiet : Option State → Yields State
quiet none = ([], none)
quiet (some s) = ([], some s)

abbrev pub says : State → Option String → Yields State
says s none = ([], none)
says s (some part) =
    (text_part part ∷ [], some (record s { text_parts = s.text_parts ++ part ∷ [] }))

abbrev pub makes : State → Option ToolCall → Yields State
makes s none = ([], none)
makes s (some call) = (
  call_part call ∷ [],
  some (record s { tool_calls = s.tool_calls ++ call ∷ []; pending_tool = none }),
)

abbrev pub pend : State → Bool → Value → Option State
pend s false block = some s
pend s true block = do
  id ← item "id" block
  name ← item "name" block
  some (record s { pending_tool = some (id, name); pending_json = [] })

unfoldable pub block_start : State → Value → Option State
block_start s event = do
  block ← get "content_block" empty_object event
  kind ← get "type" null block
  pend s (is_text "tool_use" kind) block

abbrev pub on_delta : State → Value → Option Value → Yields State
on_delta s delta none = ([], none)
on_delta s delta (some kind) =
    if is_text "text_delta" kind
    then says s (item "text" delta >>= as_text)
    else if is_text "input_json_delta" kind
    then quiet (do
      part ← get "partial_json" (text "") delta
      some (record s { pending_json = s.pending_json ++ part ∷ [] }))
    else ([], some s)

abbrev pub block_delta : State → Option Value → Yields State
block_delta s none = ([], none)
block_delta s (some delta) = on_delta s delta (get "type" null delta)

abbrev pub finish_after : FinishReason → Value → FinishReason
finish_after before reason =
    if is_text "tool_use" reason
    then tool_calls_made
    else if is_text "max_tokens" reason
    then length_reached
    else before

-- A count of tokens that is no number is an error here.
unfoldable pub message_delta : State → Value → Option State
message_delta s event = do
  delta ← get "delta" empty_object event
  reason ← get "stop_reason" null delta
  usage ← get "usage" empty_object event
  output ← get "output_tokens" (num s.usage.output_tokens) usage
  n ← as_count output
  some (record s {
    finish = finish_after s.finish reason;
    usage = record { input_tokens = s.usage.input_tokens; output_tokens = n };
  })

module _ (loads : String → Option Value) where
  unfoldable pub block_stop : State → Option (Value × Value) → Yields State
  block_stop s none = ([], some s)
  block_stop s (some (id, name)) = makes s (do
    json ← join_texts s.pending_json
    arguments ← loads (if str_eq json "" then "{}" else json)
    make_call id name arguments)

  on_kind : State → Value → Option Value → Yields State
  on_kind s event none = ([], none)
  on_kind s event (some kind) =
      if is_text "content_block_start" kind
      then quiet (block_start s event)
      else if is_text "content_block_delta" kind
      then block_delta s (get "delta" empty_object event)
      else if is_text "content_block_stop" kind
      then block_stop s s.pending_tool
      else if is_text "message_delta" kind
      then quiet (message_delta s event)
      else ([], some s)

  unfoldable pub step : State → Value → Yields State
  unfolding on_kind
  step s event = on_kind s event (get "type" null event)

  abbrev pub result_of : State → Yields ChatResult
  result_of s = (
    [],
    some (record {
      message = answer (concat s.text_parts) s.tool_calls;
      usage = s.usage;
      finish_reason = s.finish;
    }),
  )

  -- What the stream yields, over the lines that the service sends.
  unfoldable pub stream : List String → List StreamDelta
  stream lines = close (run_lines loads false step lines start) result_of
