-- ===== src/Providers/Streams.antt =====
-- The streams of the provider adapters of src/hoursx/providers, which the agent loop consumes alike.
use hours_x.Prelude.{List, String, Option}
use hours_x.Json.{Value}
use hours_x.Providers.Sse.Consistent.{Consistent}
use hours_x.Providers.Anthropic.{stream as anthropic_stream}
use hours_x.Providers.Anthropic.Streamed.{stream-Consistent as anthropic_Consistent}
use hours_x.Providers.OpenAi.{stream as openai_stream}
use hours_x.Providers.OpenAi.Streamed.{stream-Consistent as openai_Consistent}
use hours_x.Providers.Gemini.{stream as gemini_stream}
use hours_x.Providers.Gemini.Streamed.{stream-Consistent as gemini_Consistent}

pub stream-Consistent :
    (loads : String → Option Value) (lines : List String)
    → Consistent (anthropic_stream loads lines)
      × Consistent (openai_stream loads lines)
      × Consistent (gemini_stream loads lines)
stream-Consistent loads lines =
    (anthropic_Consistent loads lines, openai_Consistent loads lines, gemini_Consistent loads lines)
