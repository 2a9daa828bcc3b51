-- ===== src/Providers/Anthropic/Request.antt =====
-- The requests of the Messages API: `_payload` of src/hoursx/providers/anthropic.py.
use hours_x.Prelude.{
  List, [], ◌∷◌, ◌++◌, Bool, true, false, not, Option, none, some, String, if◌then◌else◌, str_eq,
  map, keep_if, non_empty,
}
use hours_x.Prelude.Text.{join}
use hours_x.Json.{Value, null, num, text, dict, list}
use hours_x.Providers.{
  system, assistant, tool, role_value, ToolCall, ToolDescriptor, ChatMessage, ChatRequest,
}

abbrev pub is_system : ChatMessage → Bool
is_system m = elim m.role [ system ↦ true | _ ↦ false ]

abbrev pub opt_text : Option String → Value
opt_text none = null
opt_text (some s) = text s

abbrev pub text_block : String → Value
text_block s = dict (("type", text "text") ∷ ("text", text s) ∷ [])

abbrev pub call_block : ToolCall → Value
call_block call = dict (
    ("type", text "tool_use")
    ∷ ("id", text call.id)
    ∷ ("name", text call.name)
    ∷ ("input", call.arguments)
    ∷ [])

unfoldable pub blocks_of : ChatMessage → List Value
blocks_of m =
    (if str_eq m.content "" then [] else text_block m.content ∷ []) ++ map call_block m.tool_calls

abbrev pub plain : ChatMessage → Value
plain m = dict (("role", text (role_value m.role)) ∷ ("content", text m.content) ∷ [])

unfoldable pub render : ChatMessage → Value
render m = elim m.role [
  | tool ↦ dict (
      ("role", text "user")
      ∷ (
        "content",
        list (
            dict (
              ("type", text "tool_result")
              ∷ ("tool_use_id", opt_text m.tool_call_id)
              ∷ ("content", text m.content)
              ∷ [])
            ∷ []),
      )
      ∷ [])
  | assistant ↦
      if non_empty m.tool_calls
      then dict (("role", text "assistant") ∷ ("content", list (blocks_of m)) ∷ [])
      else plain m
  | _ ↦ plain m
]

abbrev pub tool_schema : ToolDescriptor → Value
tool_schema t = dict (
    ("name", text t.name)
    ∷ ("description", text t.description)
    ∷ ("input_schema", t.parameters)
    ∷ [])

unfoldable pub payload : ChatRequest → Value
payload request =
    let system_parts = map (λ (m : ChatMessage). m.content) (keep_if is_system request.messages) in
    dict (
      ("model", text request.model)
        ∷ ("max_tokens", num request.max_tokens)
        ∷ ("temperature", request.temperature)
        ∷ ("messages", list (map render (keep_if (λ m. not (is_system m)) request.messages)))
        ∷ (if non_empty system_parts then ("system", text (join "\n\n" system_parts)) ∷ [] else [])
      ++ (if non_empty request.tools
          then ("tools", list (map tool_schema request.tools)) ∷ []
          else []))
