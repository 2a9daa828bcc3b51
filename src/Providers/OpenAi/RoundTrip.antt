-- ===== src/Providers/OpenAi/RoundTrip.antt =====
-- What src/hoursx/providers/openai_compat.py sends of an assistant message, and what it reads of it.
use hours_x.Prelude.{
  List, [], ◌∷◌, false, Option, some, String, str_eq, map, All, eq_iff, ◌≡◌, refl, sym, ap, arith,
  Bool-cases, inl, inr,
}
use hours_x.Json.{Value, null, text, as_text, or_else, find, dict, list}
use hours_x.Providers.{ToolCall, no_usage, answer}
use hours_x.Providers.Anthropic.Blocks.{IsDict, to_list-of_list}
use hours_x.Providers.OpenAi.{call_of, calls_of, parse_choice, parse, finish_of}
use hours_x.Providers.OpenAi.Request.{call_value, render}

content_read : (s : String) → as_text (or_else (text s) (text "")) ≡ some s
content_read s = elim (Bool-cases (str_eq s "")) [
  | inl e ↦ let empty : s ≡ "" = ground (arith, eq_iff s "", e) in rw e (ap some (sym empty))
  | inr e ↦ rw e
]

content_sent : (s : String) → as_text (or_else (or_else (text s) null) (text "")) ≡ some s
content_sent s = elim (Bool-cases (str_eq s "")) [
  | inl e ↦ let empty : s ≡ "" = ground (arith, eq_iff s "", e) in rw e (ap some (sym empty))
  | inr e ↦ rw (e, e)
]

module _ (dumps : Value → String) (loads : String → Option Value) where
  -- The coder's text of a call's arguments is not empty and decodes to them.
  abbrev pub Decodes : ToolCall → Type 0
  Decodes call =
      (str_eq (dumps call.arguments) "" ≡ false)
      × (loads (dumps call.arguments) ≡ some call.arguments)
      × IsDict call

  call_of-call_value :
      (call : ToolCall) → Decodes call → call_of loads (call_value dumps call) ≡ some call
  unfolding call_of find
  call_of-call_value call (n, l, d) = rw (n, l, d)

  calls_of-call_value :
      (calls : List ToolCall)
      → All Decodes calls
      → calls_of loads (map (call_value dumps) calls) ≡ some calls
  unfolding calls_of
  calls_of-call_value [] d = refl
  calls_of-call_value (c ∷ cs) (d, ds) = rw (call_of-call_value c d, calls_of-call_value cs ds)

  abbrev pub reply : Value → Value → Value
  reply message reason =
      dict
        (("choices", list (dict (("message", message) ∷ ("finish_reason", reason) ∷ []) ∷ [])) ∷ [])

  -- An answer that a message of the assistant is sent as, its content and its calls, is read back as the same
  -- message, for a coder of JSON that reads the arguments it has written.
  pub parse-render :
      (content : String) (calls : List ToolCall) (reason : Value)
      → All Decodes calls
      → parse loads (reply (render dumps (answer content calls)) reason)
        ≡ some (record {
          message = answer content calls;
          usage = no_usage;
          finish_reason = finish_of reason;
        })
  unfolding parse parse_choice render find
  parse-render content [] reason d = rw (calls_of-call_value [] tt, content_read content)
  parse-render content (c ∷ cs) reason d = rw (
    to_list-of_list (map (call_value dumps) cs),
    calls_of-call_value (c ∷ cs) d,
    content_sent content,
  )
