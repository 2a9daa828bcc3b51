-- ===== src/Providers/Tests.antt =====
-- The provider adapters at concrete requests and answers.
use hours_x.Prelude.{
  ℕ, List, [], ◌∷◌, ◌++◌, Option, none, some, String, if◌then◌else◌, str_eq, ◌≡◌, refl,
}
use hours_x.Prelude.Dict.{lookup}
use hours_x.Prelude.Text.{after_prefix, strip, concat, is_one_of}
use hours_x.Json.{Value, Fields, null, num, text, obj, find, empty_object, dict, list, fields_of}
use hours_x.Providers.{
  ToolCall, text_part, call_part, no_usage, stop, tool_calls_made, answer, collect_stream,
}
use hours_x.Providers.Sse.{read_line}
use hours_x.Providers.Sse.Consistent.{Consistent, increments}
use hours_x.Providers.Anthropic.{stream, parse}
use hours_x.Providers.Anthropic.Request.{text_block, call_block}
use hours_x.Providers.Anthropic.Blocks.{
  Frame, Block, text_in, call_in, events_of, start_event, text_delta, json_delta, stop_event,
  end_event, body_of, answered,
}
use hours_x.Providers.Anthropic.Agreement
use hours_x.Providers.Anthropic.Request.{render as anthropic_render}
use hours_x.Providers.Gemini.Request.{render as gemini_render}
use hours_x.Providers.OpenAi.{
  stream as openai_stream, parse as openai_parse, Fragment, merge, sorted,
}
use hours_x.Providers.OpenAi.Request.{render}
use hours_x.Providers.OpenAi.Assembly.{Ascending, slot_at, gathered, of_call, sorted-merge}
use hours_x.Providers.OpenAi.RoundTrip.{reply}
use hours_x.Providers.Gemini.{stream as gemini_stream, parse as gemini_parse}
use hours_x.Providers.Gemini.Request.{text_value, call_value as gemini_call, strip_unsupported}
use hours_x.Providers.Gemini.RoundTrip.{reply as gemini_reply, renamed}
use hours_x.Providers.RoundTrips.{anthropic_reply, answer_read_back}

abbrev path_args : Value
path_args = dict (("path", text "/var") ∷ [])

abbrev disk_call : ToolCall
disk_call = record { id = "t1"; name = "disk"; arguments = path_args }

abbrev answer_blocks : List Block
answer_blocks = text_in ("Loo" ∷ "king" ∷ []) ∷ call_in disk_call ("path" ∷ []) ∷ []

abbrev frame : Frame
frame = record {
  id = text "msg_1";
  model = text "claude";
  stop_sequence = null;
  counts = ("cache_read_input_tokens", num 3) ∷ [];
}

-- A decoder of a few texts.
abbrev anthropic_loads : String → Option Value
anthropic_loads s = lookup s (
    ("path", path_args)
    ∷ ("begin", dict (("type", text "message_start") ∷ []))
    ∷ ("0", start_event 0 (text_block ""))
    ∷ ("1", text_delta 0 "Loo")
    ∷ ("2", text_delta 0 "king")
    ∷ ("3", stop_event 0)
    ∷ ("7", stop_event 1)
    ∷ ("4", start_event 1 (call_block (record disk_call { arguments = empty_object })))
    ∷ ("5", json_delta 1 "path")
    ∷ ("6", end_event frame (text "tool_use") 12)
    ∷ [])

abbrev anthropic_lines : List String
anthropic_lines =
    "event: message_start" ∷ "data: begin" ∷ "" ∷ "data: 0" ∷ "data: 1" ∷ "data: 2" ∷ "data:3"
    ∷ "data: 4" ∷ "data: 5" ∷ "data: 7" ∷ "data: 6" ∷ []

abbrev anthropic_events : List Value
anthropic_events =
    dict (("type", text "message_start") ∷ []) ∷ events_of 0 answer_blocks
    ++ end_event frame (text "tool_use") 12 ∷ []

stream-parse_example :
    (parse (body_of frame answer_blocks (text "tool_use") 30 12)
      ≡ some (answered answer_blocks (text "tool_use") 30 12))
    × (collect_stream (stream anthropic_loads anthropic_lines)
        ≡ some (answered answer_blocks (text "tool_use") 0 12))
unfolding lookup read_line after_prefix strip concat find
stream-parse_example =
    Agreement.stream-parse anthropic_loads anthropic_lines anthropic_events frame answer_blocks
      (text "tool_use") 30 12 (refl, tt) (tt, (refl, tt)) refl refl

-- A chunk of each of the other two formats, with a text and a call.
abbrev mixed_loads : String → Option Value
mixed_loads s =
    if str_eq s "openai"
    then some (
        dict (
          (
            "choices",
            list (
                dict (
                  (
                    "delta",
                    dict (
                        ("content", text "Hi")
                        ∷ (
                          "tool_calls",
                          list (
                              dict (
                                ("index", num 0)
                                ∷ (
                                  "function",
                                  dict (("name", text "disk") ∷ ("arguments", text "path") ∷ []),
                                )
                                ∷ [])
                              ∷ []),
                        )
                        ∷ []),
                  )
                  ∷ [])
                ∷ []),
          )
          ∷ []))
    else if str_eq s "gemini"
    then some (
        dict (
          (
            "candidates",
            list (
                dict (
                  (
                    "content",
                    dict (("parts", list (text_value "Hey" ∷ gemini_call disk_call ∷ [])) ∷ []),
                  )
                  ∷ [])
                ∷ []),
          )
          ∷ []))
    else anthropic_loads s

abbrev mixed_lines : List String
mixed_lines = anthropic_lines ++ "data: openai" ∷ "data: gemini" ∷ []

openai_streamed :
    increments (openai_stream mixed_loads mixed_lines)
    ≡ text_part "Hi" ∷ call_part (record disk_call { id = "call_0" }) ∷ []
unfolding lookup read_line after_prefix strip openai_stream hours_x.Providers.Sse.run_lines
    hours_x.Providers.OpenAi.step find hours_x.Providers.OpenAi.fragments_of
    hours_x.Providers.OpenAi.fragment_of hours_x.Providers.OpenAi.result_of
    hours_x.Providers.OpenAi.make_calls sorted merge hours_x.Providers.OpenAi.update
    hours_x.Providers.OpenAi.insert_sorted hours_x.Providers.OpenAi.slot_call
    hours_x.Json.join_texts hours_x.Prelude.Text.decimal
openai_streamed = refl

gemini_streamed :
    increments (gemini_stream mixed_loads mixed_lines)
    ≡ text_part "Hey" ∷ call_part (record disk_call { id = "disk_0_1" }) ∷ []
unfolding lookup read_line after_prefix strip gemini_stream hours_x.Providers.Sse.run_lines
    hours_x.Providers.Gemini.step find hours_x.Providers.Gemini.parts_in
    hours_x.Providers.Gemini.on_parts hours_x.Providers.Gemini.call_of hours_x.Prelude.Text.decimal
gemini_streamed = refl

-- Two calls, whose fragments arrive mixed.
abbrev fragments : List Fragment
fragments =
    record { index = 1; id = text "b"; name = text "scan"; arguments = null }
    ∷ record { index = 0; id = text "a"; name = text "disk"; arguments = text "{" }
    ∷ record { index = 1; id = null; name = null; arguments = text "{}" }
    ∷ record { index = 0; id = null; name = null; arguments = text "}" }
    ∷ []

sorted-merge_example :
    Ascending (sorted (merge fragments []))
    × ((i : ℕ) → slot_at i (sorted (merge fragments [])) ≡ gathered none (of_call i fragments))
sorted-merge_example = sorted-merge fragments

-- A coder that writes one value.
abbrev dumps : Value → String
dumps v = "path"

answer_read_back_example :
    (parse (anthropic_reply (anthropic_render (answer "On it." (disk_call ∷ []))) (text "tool_use"))
      ≡ some (record {
        message = answer "On it." (disk_call ∷ []);
        usage = no_usage;
        finish_reason = tool_calls_made;
      }))
    × (openai_parse anthropic_loads (
          reply dumps anthropic_loads
            (render dumps (answer "On it." (disk_call ∷ [])))
            (text "tool_use"))
        ≡ some (record {
          message = answer "On it." (disk_call ∷ []);
          usage = no_usage;
          finish_reason = stop;
        }))
    × (gemini_parse
          (gemini_reply (gemini_render (answer "On it." (disk_call ∷ []))) (text "tool_use"))
        ≡ some (record {
          message = answer "On it." (renamed 1 (disk_call ∷ []));
          usage = no_usage;
          finish_reason = tool_calls_made;
        }))
unfolding lookup
answer_read_back_example =
    answer_read_back dumps anthropic_loads "On it." disk_call [] (text "tool_use")
      ((refl, refl, refl), tt)

-- A parameter that a tool calls `title` is no keyword, and is stripped with those that are.
title_parameter_lost :
    strip_unsupported
      (dict (("properties", dict (("title", dict (("type", text "string") ∷ [])) ∷ [])) ∷ []))
    ≡ dict (("properties", dict []) ∷ [])
unfolding strip_unsupported is_one_of
title_parameter_lost = refl
