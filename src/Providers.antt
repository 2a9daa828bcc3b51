-- ===== src/Providers.antt =====
-- What every model provider speaks: src/hoursx/providers/types.py.
pub mod Sse
pub mod Streams
pub mod RoundTrips
mod Tests
pub mod Anthropic
pub mod OpenAi
pub mod Gemini
use Prim.Native.String.{◌++◌ as text_append}
use hours_x.Prelude.{ℕ, List, [], ◌∷◌, Option, none, some, String}
use hours_x.Json.{Value}

pub data ChatRole : Type 0 where
  system user assistant tool : ChatRole

unfoldable pub role_value : ChatRole → String
role_value system = "system"
role_value user = "user"
role_value assistant = "assistant"
role_value tool = "tool"

-- The arguments are a dictionary.
pub record ToolCall : Type 0 where
  pub id : String
  pub name : String
  pub arguments : Value

pub record ToolDescriptor : Type 0 where
  pub name : String
  pub description : String
  pub parameters : Value

pub record ChatMessage : Type 0 where
  pub role : ChatRole
  pub content : String
  pub tool_calls : List ToolCall
  pub tool_call_id : Option String

pub record ChatRequest : Type 0 where
  pub model : String
  pub messages : List ChatMessage
  pub tools : List ToolDescriptor
  pub temperature : Value
  pub max_tokens : ℕ

pub record ChatUsage : Type 0 where
  pub input_tokens : ℕ
  pub output_tokens : ℕ

abbrev pub no_usage : ChatUsage
no_usage = record { input_tokens = 0; output_tokens = 0 }

pub data FinishReason : Type 0 where
  stop tool_calls_made length_reached error : FinishReason

pub record ChatResult : Type 0 where
  pub message : ChatMessage
  pub usage : ChatUsage
  pub finish_reason : FinishReason

abbrev pub answer : String → List ToolCall → ChatMessage
answer content calls = record {
  role = assistant;
  content = content;
  tool_calls = calls;
  tool_call_id = none;
}

-- A `StreamDelta` of the kinds "text" and "tool_call".
pub data Increment : Type 0 where
  text_part : String → Increment
  call_part : ToolCall → Increment

pub data StreamDelta : Type 0 where
  increment : Increment → StreamDelta
  done : ChatResult → StreamDelta

-- `none` is the RuntimeError of a stream that ends without a result.
unfoldable pub collect_stream : List StreamDelta → Option ChatResult
collect_stream [] = none
collect_stream (increment p ∷ ds) = collect_stream ds
collect_stream (done r ∷ ds) = some r
