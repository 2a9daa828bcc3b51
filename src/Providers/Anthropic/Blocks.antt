-- ===== src/Providers/Anthropic/Blocks.antt =====
-- The blocks of an answer of the Messages API, whole and in the events of a stream, and what
-- src/hoursx/providers/anthropic.py makes of the whole.
use Prim.Native.String.{◌++◌ as text_append}
use hours_x.Prelude.{
  suc, ℕ, List, [], ◌∷◌, ◌++◌, Bool, true, Option, none, some, String, if◌then◌else◌, str_eq, ◌||◌,
  map, All, ◌≡◌, refl, sym, ap, ◌∙◌, eq_iff, Bool-cases, inl, inr, arith,
}
use hours_x.Prelude.Text.{append_empty, concat, concat-append}
use hours_x.Json.{
  Value, null, num, text, find, get, as_dict, is_text, empty_object, dict, list, to_list, of_list,
  join_texts,
}
use hours_x.Providers.{ToolCall, ChatMessage, ChatResult, answer}
use hours_x.Providers.Anthropic.{finish_of, call_of, parse_blocks, parse, count_of}
use hours_x.Providers.Anthropic.Request.{text_block, call_block, blocks_of}

-- A block of an answer, in the parts in which it is streamed: of a text, or of the JSON of a call's arguments.
pub data Block : Type 0 where
  text_in : List String → Block
  call_in : ToolCall → List String → Block

abbrev pub whole_block : Block → Value
whole_block (text_in parts) = text_block (concat parts)
whole_block (call_in call parts) = call_block call

-- The events of the block of this number, as the service documents them.
abbrev pub delta_event : ℕ → Value → Value
delta_event i delta =
    dict (("type", text "content_block_delta") ∷ ("index", num i) ∷ ("delta", delta) ∷ [])

abbrev pub text_delta : ℕ → String → Value
text_delta i s = delta_event i (dict (("type", text "text_delta") ∷ ("text", text s) ∷ []))

abbrev pub json_delta : ℕ → String → Value
json_delta i s =
    delta_event i (dict (("type", text "input_json_delta") ∷ ("partial_json", text s) ∷ []))

abbrev pub start_event : ℕ → Value → Value
start_event i block =
    dict (("type", text "content_block_start") ∷ ("index", num i) ∷ ("content_block", block) ∷ [])

abbrev pub stop_event : ℕ → Value
stop_event i = dict (("type", text "content_block_stop") ∷ ("index", num i) ∷ [])

-- What the service tells of an answer beside its blocks, of which nothing here is read: its id, its model, the
-- stop sequence, and further counts.
pub record Frame : Type 0 where
  pub id : Value
  pub model : Value
  pub stop_sequence : Value
  pub counts : List (String × Value)

abbrev pub end_event : Frame → Value → ℕ → Value
end_event frame reason output = dict (
    ("type", text "message_delta")
    ∷ ("delta", dict (("stop_reason", reason) ∷ ("stop_sequence", frame.stop_sequence) ∷ []))
    ∷ ("usage", dict (("output_tokens", num output) ∷ frame.counts))
    ∷ [])

abbrev pub block_events : ℕ → Block → List Value
block_events i (text_in parts) =
    start_event i (text_block "") ∷ map (text_delta i) parts ++ stop_event i ∷ []
block_events i (call_in call parts) =
    start_event i (call_block (record call { arguments = empty_object })) ∷ map (json_delta i) parts
    ++ stop_event i ∷ []

-- The events of the blocks, which are numbered from `i` on.
abbrev pub events_of : ℕ → List Block → List Value
events_of i [] = []
events_of i (b ∷ bs) = block_events i b ++ events_of (suc i) bs

abbrev pub is_read : Option Value → Bool
is_read none = true
is_read (some kind) =
    is_text "content_block_start" kind
    || is_text "content_block_delta" kind
    || is_text "content_block_stop" kind
    || is_text "message_delta" kind

-- The events that the loop does not pass over, as it does the service's message_start, ping and message_stop.
abbrev pub matters : Value → Bool
matters v = is_read (get "type" null v)

-- The texts and the calls of the blocks.
abbrev pub texts_of : List Block → List String
texts_of [] = []
texts_of (text_in parts ∷ bs) = parts ++ texts_of bs
texts_of (call_in call parts ∷ bs) = texts_of bs

abbrev pub calls_of : List Block → List ToolCall
calls_of [] = []
calls_of (text_in parts ∷ bs) = calls_of bs
calls_of (call_in call parts ∷ bs) = call ∷ calls_of bs

abbrev pub answered : List Block → Value → ℕ → ℕ → ChatResult
answered bs reason input output = record {
  message = answer (concat (texts_of bs)) (calls_of bs);
  usage = record { input_tokens = input; output_tokens = output };
  finish_reason = finish_of reason;
}

abbrev pub body_of : Frame → List Block → Value → ℕ → ℕ → Value
body_of frame bs reason input output = dict (
    ("id", frame.id)
    ∷ ("type", text "message")
    ∷ ("role", text "assistant")
    ∷ ("model", frame.model)
    ∷ ("content", list (map whole_block bs))
    ∷ ("stop_reason", reason)
    ∷ ("stop_sequence", frame.stop_sequence)
    ∷ ("usage", dict (("input_tokens", num input) ∷ ("output_tokens", num output) ∷ frame.counts))
    ∷ [])

abbrev pub IsDict : ToolCall → Type 0
IsDict call = as_dict call.arguments ≡ some call.arguments

parse_blocks-text_block :
    (s : String) (rest : List Value) (said : String) (calls : List ToolCall)
    → parse_blocks rest ≡ some (said, calls)
    → parse_blocks (text_block s ∷ rest) ≡ some (text_append s said, calls)
unfolding parse_blocks find
parse_blocks-text_block s rest said calls e = rw e

parse_blocks-call_block :
    (call : ToolCall) (rest : List Value) (said : String) (calls : List ToolCall)
    → IsDict call
    → parse_blocks rest ≡ some (said, calls)
    → parse_blocks (call_block call ∷ rest) ≡ some (said, call ∷ calls)
unfolding parse_blocks find call_of
parse_blocks-call_block call rest said calls d e = rw (e, d)

pub to_list-of_list : (vs : List Value) → to_list (of_list vs) ≡ vs
to_list-of_list [] = refl
to_list-of_list (v ∷ vs) = ap (λ t. v ∷ t) (to_list-of_list vs)

pub parse_blocks_nil : parse_blocks [] ≡ some ("", [])
unfolding parse_blocks
parse_blocks_nil = refl

pub concat_nil : concat [] ≡ ""
unfolding concat
concat_nil = refl

pub join_texts-text : (ss : List String) → join_texts (map text ss) ≡ some (concat ss)
unfolding join_texts concat
join_texts-text [] = refl
join_texts-text (s ∷ ss) = rw (join_texts-text ss)

parse_blocks-whole_block :
    (bs : List Block)
    → All IsDict (calls_of bs)
    → parse_blocks (map whole_block bs) ≡ some (concat (texts_of bs), calls_of bs)
parse_blocks-whole_block [] d = parse_blocks_nil ∙ ap (λ s. some (s, [])) (sym concat_nil)
parse_blocks-whole_block (text_in parts ∷ bs) d =
    parse_blocks-text_block (concat parts) (map whole_block bs) (concat (texts_of bs)) (calls_of bs)
      (parse_blocks-whole_block bs d)
    ∙ ap (λ s. some (s, calls_of bs)) (sym (concat-append parts (texts_of bs)))
parse_blocks-whole_block (call_in call parts ∷ bs) d =
    parse_blocks-call_block call (map whole_block bs) (concat (texts_of bs)) (calls_of bs) d.0
      (parse_blocks-whole_block bs d.1)

pub parsed :
    (frame : Frame) (bs : List Block) (reason : Value) (input output : ℕ)
    → All IsDict (calls_of bs)
    → parse (body_of frame bs reason input output) ≡ some (answered bs reason input output)
unfolding parse find count_of
parsed frame bs reason input output d =
    rw (to_list-of_list (map whole_block bs), parse_blocks-whole_block bs d)

calls_in_blocks :
    (calls : List ToolCall)
    → All IsDict calls
    → parse_blocks (map call_block calls) ≡ some ("", calls)
calls_in_blocks [] d = parse_blocks_nil
calls_in_blocks (c ∷ cs) d =
    parse_blocks-call_block c (map call_block cs) "" cs d.0 (calls_in_blocks cs d.1)

-- What the adapter sends of an assistant message with calls, it reads back as the same content and calls.
pub parse_blocks-blocks_of :
    (m : ChatMessage)
    → All IsDict m.tool_calls
    → parse_blocks (blocks_of m) ≡ some (m.content, m.tool_calls)
unfolding blocks_of
parse_blocks-blocks_of m d = elim (Bool-cases (str_eq m.content "")) [
  | inl e ↦
      let empty : m.content ≡ "" = ground (arith, eq_iff m.content "", e) in
      ap
        (λ b.
          parse_blocks
            ((if b then [] else text_block m.content ∷ []) ++ map call_block m.tool_calls))
        e
      ∙ calls_in_blocks m.tool_calls d
      ∙ ap (λ s. some (s, m.tool_calls)) (sym empty)
  | inr e ↦
      ap
        (λ b.
          parse_blocks
            ((if b then [] else text_block m.content ∷ []) ++ map call_block m.tool_calls))
        e
      ∙ parse_blocks-text_block m.content (map call_block m.tool_calls) "" m.tool_calls
          (calls_in_blocks m.tool_calls d)
      ∙ ap (λ s. some (s, m.tool_calls)) (append_empty m.content)
]
