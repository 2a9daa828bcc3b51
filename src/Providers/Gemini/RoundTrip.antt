-- ===== src/Providers/Gemini/RoundTrip.antt =====
-- What src/hoursx/providers/gemini.py sends of an assistant message, and what it reads of it.
use Prim.Native.String.{◌++◌ as text_append}
use hours_x.Prelude.{
  true, non_empty, ℕ, suc, List, [], ◌∷◌, some, String, if◌then◌else◌, str_eq, map, All, eq_iff,
  ◌≡◌, refl, sym, ap, arith, Bool-cases, inl, inr,
}
use hours_x.Prelude.Text.{append_empty, decimal}
use hours_x.Json.{
  Value, null, bool, num, other_num, arr, obj, end, field, text, find, as_dict, dict, list,
  empty_object, or_else, join_texts,
}
use hours_x.Providers.{ToolCall, no_usage, tool_calls_made, answer}
use hours_x.Providers.Anthropic.Blocks.{IsDict, to_list-of_list}
use hours_x.Providers.Gemini.{call_of, parse_parts, parts_in, usage_of, parse}
use hours_x.Providers.Gemini.Request.{call_value, render, parts_of}

-- The calls as they are read: the service keeps no ids, so each is made of the call's name and the position
-- of its part.
abbrev pub renamed : ℕ → List ToolCall → List ToolCall
renamed index [] = []
renamed index (call ∷ calls) =
    record call { id = text_append call.name (text_append "_" (decimal index)) }
    ∷ renamed (suc index) calls

args_read : (v : Value) → as_dict v ≡ some v → as_dict (or_else v empty_object) ≡ some v
args_read null h = cc
args_read (bool b) h = cc
args_read (num n) h = cc
args_read (other_num t) h = cc
args_read (text t) h = cc
args_read (arr vs) h = cc
args_read (obj end) h = refl
args_read (obj (field k v fs)) h = refl

parse_parts-call_value :
    (index : ℕ) (calls : List ToolCall)
    → All IsDict calls
    → parse_parts index (map call_value calls) ≡ some ([], renamed index calls)
unfolding parse_parts call_of find
parse_parts-call_value index [] d = refl
parse_parts-call_value index (c ∷ cs) (d, ds) =
    rw (parse_parts-call_value (suc index) cs ds, args_read c.arguments d)

-- The position of the first call: a message with content has a part before.
abbrev pub first_call : String → ℕ
first_call content = if str_eq content "" then 0 else 1

-- A body whose candidate is a content as it is sent.
abbrev pub first_of : List Value → Value
first_of [] = null
first_of (v ∷ vs) = v

abbrev pub reply : List Value → Value → Value
reply contents reason = dict (
    (
      "candidates",
      list (dict (("content", first_of contents) ∷ ("finishReason", reason) ∷ []) ∷ []),
    )
    ∷ [])

abbrev said : String → List Value
said content = if str_eq content "" then [] else text content ∷ []

parse_parts-parts_of :
    (content : String) (calls : List ToolCall)
    → All IsDict calls
    → parse_parts 0 (parts_of (answer content calls))
      ≡ some (said content, renamed (first_call content) calls)
unfolding parse_parts parts_of find
parse_parts-parts_of content calls d = elim (Bool-cases (str_eq content "")) [
  | inl e ↦ rw e (parse_parts-call_value 0 calls d)
  | inr e ↦ rw (e, parse_parts-call_value 1 calls d)
]

join_texts-said : (content : String) → join_texts (said content) ≡ some content
unfolding join_texts
join_texts-said content = elim (Bool-cases (str_eq content "")) [
  | inl e ↦
      let empty : content ≡ "" = ground (arith, eq_iff content "", e) in rw e (ap some (sym empty))
  | inr e ↦ rw (e, append_empty content)
]

has_parts :
    (content : String) (call : ToolCall) (calls : List ToolCall)
    → non_empty (parts_of (answer content (call ∷ calls))) ≡ true
unfolding parts_of
has_parts content call calls = elim (Bool-cases (str_eq content "")) [
  | inl e ↦ rw e refl
  | inr e ↦ rw e refl
]

-- An answer with calls, as it is sent, is read back as a message of the same content, with the same names
-- and arguments of the calls, whose ids are their names and positions.
pub parse-render :
    (content : String) (call : ToolCall) (calls : List ToolCall) (reason : Value)
    → All IsDict (call ∷ calls)
    → parse (reply (render (answer content (call ∷ calls))) reason)
      ≡ some (record {
        message = answer content (renamed (first_call content) (call ∷ calls));
        usage = no_usage;
        finish_reason = tool_calls_made;
      })
unfolding parse parts_in render find usage_of
parse-render content call calls reason d = rw (
  has_parts content call calls,
  to_list-of_list (parts_of (answer content (call ∷ calls))),
  parse_parts-parts_of content (call ∷ calls) d,
  join_texts-said content,
)
