-- ===== src/Providers/Gemini.antt =====
-- The Gemini API: src/hoursx/providers/gemini.py. The decoder of JSON is a parameter, and so is what the
-- service answers; the HTTP client and the embeddings are left out.
pub mod Schema
pub mod Streamed
pub mod RoundTrip
pub mod Request
use Prim.Native.String.{◌++◌ as text_append}
use hours_x.Prelude.{
  ℕ, suc, List, [], ◌∷◌, ◌++◌, Bool, true, false, not, Option, none, some, String, if◌then◌else◌,
  str_eq, map, length, keep_if, non_empty,
}
use hours_x.Prelude.Text.{concat, join, decimal, is_one_of}
use hours_x.Json.{
  Value, Items, Fields, null, bool, num, other_num, text, arr, obj, nil, cons, end, field, ◌>>=◌,
  get, item, each, first, truthy, or_else, has_key, as_text, as_dict, as_count, is_text,
  empty_object, empty_array, dict, list, join_texts,
}
use hours_x.Providers.{
  ChatRole, system, user, assistant, tool, ToolCall, ToolDescriptor, ChatMessage, ChatRequest,
  ChatUsage, no_usage, FinishReason, stop, tool_calls_made, length_reached, ChatResult, answer,
  text_part, call_part, StreamDelta,
}
use hours_x.Providers.Anthropic.{make_call}
use hours_x.Providers.Anthropic.Request.{is_system}
use hours_x.Providers.Sse.{Yields, and_rest, run_lines, close}

-- The call of a part, whose id ends in `suffix`.
unfoldable pub call_of : String → Value → Option ToolCall
call_of suffix call = do
  known ← get "name" (text "call") call
  base ← as_text known
  name ← get "name" (text "") call
  args ← get "args" null call
  make_call (text (text_append base suffix)) name (or_else args empty_object)

-- What the parts of an answer hold: the values of its texts, and its calls.
abbrev pub Parts : Type 0
Parts = List Value × List ToolCall

abbrev pub parse_call : ℕ → Bool → Value → Parts → Option Parts
parse_call index false part rest = some rest
parse_call index true part (said, calls) = do
  made ← item "functionCall" part
  call ← call_of (text_append "_" (decimal index)) made
  some (said, call ∷ calls)

abbrev pub parse_part : ℕ → Bool → Value → Parts → Option Parts
parse_part index true part (said, calls) = do v ← item "text" part; some (v ∷ said, calls)
parse_part index false part rest =
    has_key "functionCall" part >>= λ is_call. parse_call index is_call part rest

unfoldable pub parse_parts : ℕ → List Value → Option Parts
parse_parts index [] = some ([], [])
parse_parts index (part ∷ parts) = parse_parts (suc index) parts >>= λ rest.
    has_key "text" part >>= λ is_said. parse_part index is_said part rest

abbrev pub finish_of : List ToolCall → Value → FinishReason
finish_of calls reason =
    if non_empty calls
    then tool_calls_made
    else if is_text "MAX_TOKENS" reason
    then length_reached
    else stop

unfoldable pub parts_in : Value → Option (List Value)
parts_in candidate = do
  content ← get "content" empty_object candidate
  parts ← get "parts" empty_array content
  each parts

-- The parts and the finish reason of the first candidate, if there is one.
abbrev pub parse_first : Value → Option (Parts × Value)
parse_first candidate = do
  listed ← parts_in candidate
  parts ← parse_parts 0 listed
  reason ← get "finishReason" null candidate
  some (parts, reason)

abbrev pub parse_candidates : Value → Option (Parts × Value)
parse_candidates candidates =
    if truthy candidates then first candidates >>= parse_first else some (([], []), text "")

unfoldable pub usage_of : Value → Option ChatUsage
usage_of meta = do
  counted_in ← get "promptTokenCount" (num 0) meta
  input ← as_count counted_in
  counted_out ← get "candidatesTokenCount" (num 0) meta
  output ← as_count counted_out
  some (record { input_tokens = input; output_tokens = output })

unfoldable pub parse : Value → Option ChatResult
parse body = do
  candidates ← get "candidates" null body
  ((said, calls), reason) ← parse_candidates candidates
  meta ← get "usageMetadata" empty_object body
  content ← join_texts said
  usage ← usage_of meta
  some (record {
    message = answer content calls;
    usage = usage;
    finish_reason = finish_of calls reason;
  })

-- The variables of the loop of `stream`.
pub record State : Type 0 where
  pub text_parts : List String
  pub tool_calls : List ToolCall
  pub usage : ChatUsage
  pub finish : FinishReason

abbrev pub start : State
start = record { text_parts = []; tool_calls = []; usage = no_usage; finish = stop }

abbrev pub says : State → Option String → Yields State
says s none = ([], none)
says s (some part) =
    (text_part part ∷ [], some (record s { text_parts = s.text_parts ++ part ∷ [] }))

abbrev pub makes : State → Option ToolCall → Yields State
makes s none = ([], none)
makes s (some call) =
    (call_part call ∷ [], some (record s { tool_calls = s.tool_calls ++ call ∷ [] }))

-- The call of a part of a stream; its id tells how many calls there were before.
abbrev pub streamed_call : State → ℕ → Value → Option ToolCall
streamed_call s index part =
    item "functionCall" part
    >>= call_of (
        text_append "_"
          (text_append (decimal (length s.tool_calls)) (text_append "_" (decimal index))))

abbrev pub on_call : State → ℕ → Value → Option Bool → Yields State
on_call s index part none = ([], none)
on_call s index part (some is_call) =
    if is_call then makes s (streamed_call s index part) else ([], some s)

abbrev pub on_part : State → ℕ → Value → Option Bool → Yields State
on_part s index part none = ([], none)
on_part s index part (some is_said) =
    if is_said
    then says s (item "text" part >>= as_text)
    else on_call s index part (has_key "functionCall" part)

unfoldable pub on_parts : ℕ → List Value → State → Yields State
on_parts index [] s = ([], some s)
on_parts index (part ∷ parts) s =
    and_rest (on_part s index part (has_key "text" part)) (on_parts (suc index) parts)

abbrev pub metered : State → Value → Option State
metered s meta =
    if truthy meta then (do usage ← usage_of meta; some (record s { usage = usage })) else some s

-- What follows the parts in the body of the loop.
abbrev pub settle : State → Value → Value → Option State
settle s chunk candidate = do
  reason ← get "finishReason" null candidate
  meta ← get "usageMetadata" null chunk
  metered
      (record s {
        finish =
            if truthy reason
            then if is_text "MAX_TOKENS" reason then length_reached else stop
            else s.finish;
      })
      meta

abbrev pub quiet : Option State → Yields State
quiet none = ([], none)
quiet (some s) = ([], some s)

abbrev pub on_listed : State → Value → Value → Option (List Value) → Yields State
on_listed s chunk candidate none = ([], none)
on_listed s chunk candidate (some parts) =
    and_rest (on_parts 0 parts s) (λ t. quiet (settle t chunk candidate))

abbrev pub on_candidate : State → Value → Option Value → Yields State
on_candidate s chunk none = ([], none)
on_candidate s chunk (some candidate) = on_listed s chunk candidate (parts_in candidate)

abbrev pub on_candidates : State → Value → Option Value → Yields State
on_candidates s chunk none = ([], none)
on_candidates s chunk (some candidates) =
    if truthy candidates then on_candidate s chunk (first candidates) else ([], some s)

unfoldable pub step : State → Value → Yields State
step s chunk = on_candidates s chunk (get "candidates" null chunk)

abbrev pub result_of : State → Yields ChatResult
result_of s = (
  [],
  some (record {
    message = answer (concat s.text_parts) s.tool_calls;
    usage = s.usage;
    finish_reason = if non_empty s.tool_calls then tool_calls_made else s.finish;
  }),
)

unfoldable pub stream : (String → Option Value) → List String → List StreamDelta
stream loads lines = close (run_lines loads false step lines start) result_of
