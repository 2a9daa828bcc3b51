-- ===== src/Providers/RoundTrips.antt =====
-- What the provider adapters of src/hoursx/providers send of an answer with calls, in the history of a later
-- request, and what they read of it.
use hours_x.Prelude.{List, [], ◌∷◌, Option, some, String, All, ◌≡◌}
use hours_x.Json.{Value, null, find, item, or_default, dict}
use hours_x.Providers.{ToolCall, no_usage, answer, tool_calls_made}
use hours_x.Providers.Anthropic.{parse as anthropic_parse, finish_of as anthropic_finish, count_of}
use hours_x.Providers.Anthropic.Request.{blocks_of, render as anthropic_render}
use hours_x.Providers.Anthropic.Blocks.{IsDict, to_list-of_list, parse_blocks-blocks_of}
use hours_x.Providers.OpenAi.{parse as openai_parse, finish_of as openai_finish}
use hours_x.Providers.OpenAi.Request.{render as openai_render}
use hours_x.Providers.OpenAi.RoundTrip.{
  Decodes, reply as openai_reply, parse-render as openai_read_back,
}
use hours_x.Providers.Gemini.{parse as gemini_parse}
use hours_x.Providers.Gemini.Request.{render as gemini_render}
use hours_x.Providers.Gemini.RoundTrip.{
  reply as gemini_reply, renamed, first_call, parse-render as gemini_read_back,
}

-- A body whose content is that of a message as it is sent.
abbrev pub anthropic_reply : Value → Value → Value
anthropic_reply message reason =
    dict (("content", or_default null (item "content" message)) ∷ ("stop_reason", reason) ∷ [])

anthropic_read_back :
    (content : String) (call : ToolCall) (calls : List ToolCall) (reason : Value)
    → All IsDict (call ∷ calls)
    → anthropic_parse (anthropic_reply (anthropic_render (answer content (call ∷ calls))) reason)
      ≡ some (record {
        message = answer content (call ∷ calls);
        usage = no_usage;
        finish_reason = anthropic_finish reason;
      })
unfolding anthropic_parse anthropic_render find count_of
anthropic_read_back content call calls reason d = rw (
  to_list-of_list (blocks_of (answer content (call ∷ calls))),
  parse_blocks-blocks_of (answer content (call ∷ calls)) d,
)

dicts :
    (dumps : Value → String) (loads : String → Option Value) (calls : List ToolCall)
    → All (Decodes dumps loads) calls
    → All IsDict calls
dicts dumps loads [] d = tt
dicts dumps loads (c ∷ cs) (d, ds) = (d.2, dicts dumps loads cs ds)

-- An answer with calls, as it is sent back to its service, is read as the same content and the same calls, for
-- a coder of JSON that reads the arguments it has written; but Gemini keeps no ids of calls, so there the id
-- of each is made of its name and the position of its part.
pub answer_read_back :
    (dumps : Value → String) (loads : String → Option Value) (content : String) (call : ToolCall)
    (calls : List ToolCall) (reason : Value)
    → All (Decodes dumps loads) (call ∷ calls)
    → (anthropic_parse (anthropic_reply (anthropic_render (answer content (call ∷ calls))) reason)
        ≡ some (record {
          message = answer content (call ∷ calls);
          usage = no_usage;
          finish_reason = anthropic_finish reason;
        }))
      × (openai_parse loads
            (openai_reply dumps loads (openai_render dumps (answer content (call ∷ calls))) reason)
          ≡ some (record {
            message = answer content (call ∷ calls);
            usage = no_usage;
            finish_reason = openai_finish reason;
          }))
      × (gemini_parse (gemini_reply (gemini_render (answer content (call ∷ calls))) reason)
          ≡ some (record {
            message = answer content (renamed (first_call content) (call ∷ calls));
            usage = no_usage;
            finish_reason = tool_calls_made;
          }))
answer_read_back dumps loads content call calls reason d =
    let known = dicts dumps loads (call ∷ calls) d in
    (
      anthropic_read_back content call calls reason known,
      openai_read_back dumps loads content (call ∷ calls) reason d,
      gemini_read_back content call calls reason known,
    )
