-- ===== src/Providers/OpenAi/Request.antt =====
-- The requests of the chat-completions API: `_payload` of src/hoursx/providers/openai_compat.py.
use hours_x.Prelude.{[], ◌∷◌, Bool, String, if◌then◌else◌, map, non_empty}
use hours_x.Json.{Value, null, num, text, bool, or_else, dict, list}
use hours_x.Providers.{
  assistant, tool, role_value, ToolCall, ToolDescriptor, ChatMessage, ChatRequest,
}
use hours_x.Providers.Anthropic.Request.{opt_text}

abbrev pub plain : ChatMessage → Value
plain m = dict (("role", text (role_value m.role)) ∷ ("content", text m.content) ∷ [])

abbrev pub tool_schema : ToolDescriptor → Value
tool_schema t = dict (
    ("type", text "function")
    ∷ (
      "function",
      dict (
          ("name", text t.name)
          ∷ ("description", text t.description)
          ∷ ("parameters", t.parameters)
          ∷ []),
    )
    ∷ [])

module _ (dumps : Value → String) where
  abbrev pub call_value : ToolCall → Value
  call_value call = dict (
      ("id", text call.id)
      ∷ ("type", text "function")
      ∷ (
        "function",
        dict (("name", text call.name) ∷ ("arguments", text (dumps call.arguments)) ∷ []),
      )
      ∷ [])

  unfoldable pub render : ChatMessage → Value
  render m = elim m.role [
    | tool ↦ dict (
        ("role", text "tool")
        ∷ ("tool_call_id", opt_text m.tool_call_id)
        ∷ ("content", text m.content)
        ∷ [])
    | assistant ↦
        if non_empty m.tool_calls
        then dict (
            ("role", text "assistant")
            ∷ ("content", or_else (text m.content) null)
            ∷ ("tool_calls", list (map call_value m.tool_calls))
            ∷ [])
        else plain m
    | _ ↦ plain m
  ]

  unfoldable pub payload : ChatRequest → Bool → Value
  payload request streamed = dict (
      ("model", text request.model)
      ∷ ("messages", list (map render request.messages))
      ∷ ("temperature", request.temperature)
      ∷ ("max_tokens", num request.max_tokens)
      ∷ ("stream", bool streamed)
      ∷ (if non_empty request.tools
          then ("tools", list (map tool_schema request.tools)) ∷ []
          else []))
