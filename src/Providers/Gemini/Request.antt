-- ===== src/Providers/Gemini/Request.antt =====
-- The requests of the Gemini API: `_payload` of src/hoursx/providers/gemini.py.
use hours_x.Prelude.{
  List, [], ◌∷◌, ◌++◌, Option, none, some, String, if◌then◌else◌, str_eq, map, keep_if, non_empty,
}
use hours_x.Prelude.Text.{join, is_one_of}
use hours_x.Json.{
  Value, Items, Fields, null, bool, num, other_num, text, arr, obj, nil, cons, end, field, dict,
  list,
}
use hours_x.Providers.{
  system, user, assistant, tool, ToolCall, ToolDescriptor, ChatMessage, ChatRequest,
}
use hours_x.Providers.Anthropic.Request.{is_system}

abbrev pub unsupported : List String
unsupported = "title" ∷ "additionalProperties" ∷ "$defs" ∷ "definitions" ∷ "default" ∷ []

unfoldable mutual
  pub strip_unsupported : Value → Value
  strip_unsupported null = null
  strip_unsupported (bool b) = bool b
  strip_unsupported (num n) = num n
  strip_unsupported (other_num s) = other_num s
  strip_unsupported (text s) = text s
  strip_unsupported (arr vs) = arr (strip_items vs)
  strip_unsupported (obj fs) = obj (strip_fields fs)

  pub strip_items : Items → Items
  strip_items nil = nil
  strip_items (cons v vs) = cons (strip_unsupported v) (strip_items vs)

  pub strip_fields : Fields → Fields
  strip_fields end = end
  strip_fields (field key v fs) =
      let rest = strip_fields fs in
      if is_one_of key unsupported then rest else field key (strip_unsupported v) rest

abbrev pub opt_or : String → Option String → String
opt_or default none = default
opt_or default (some s) = if str_eq s "" then default else s

abbrev pub text_value : String → Value
text_value s = dict (("text", text s) ∷ [])

abbrev pub call_value : ToolCall → Value
call_value call =
    dict (("functionCall", dict (("name", text call.name) ∷ ("args", call.arguments) ∷ [])) ∷ [])

unfoldable pub parts_of : ChatMessage → List Value
parts_of m =
    (if str_eq m.content "" then [] else text_value m.content ∷ []) ++ map call_value m.tool_calls

abbrev pub content_of : String → List Value → List Value
content_of role parts =
    if non_empty parts then dict (("role", text role) ∷ ("parts", list parts) ∷ []) ∷ [] else []

-- The content of a message, unless it has none.
unfoldable pub render : ChatMessage → List Value
render m = elim m.role [
  | system ↦ []
  | tool ↦
      dict (
        ("role", text "user")
        ∷ (
          "parts",
          list (
              dict (
                (
                  "functionResponse",
                  dict (
                      ("name", text (opt_or "tool" m.tool_call_id))
                      ∷ ("response", dict (("result", text m.content) ∷ []))
                      ∷ []),
                )
                ∷ [])
              ∷ []),
        )
        ∷ [])
      ∷ []
  | assistant ↦ content_of "model" (parts_of m)
  | user ↦ content_of "user" (parts_of m)
]

abbrev pub contents_of : List ChatMessage → List Value
contents_of [] = []
contents_of (m ∷ ms) = render m ++ contents_of ms

abbrev pub declaration : ToolDescriptor → Value
declaration t = dict (
    ("name", text t.name)
    ∷ ("description", text t.description)
    ∷ ("parameters", strip_unsupported t.parameters)
    ∷ [])

unfoldable pub payload : ChatRequest → Value
payload request =
    let system_parts = map (λ (m : ChatMessage). m.content) (keep_if is_system request.messages) in
    dict (
      ("contents", list (contents_of request.messages))
        ∷ (
          "generationConfig",
          dict (
              ("temperature", request.temperature)
              ∷ ("maxOutputTokens", num request.max_tokens)
              ∷ []),
        )
        ∷ (if non_empty system_parts
            then (
              "systemInstruction",
              dict (("parts", list (text_value (join "\n\n" system_parts) ∷ [])) ∷ []),
            )
              ∷ []
            else [])
      ++ (if non_empty request.tools
          then (
            "tools",
            list (dict (("functionDeclarations", list (map declaration request.tools)) ∷ []) ∷ []),
          )
            ∷ []
          else []))
