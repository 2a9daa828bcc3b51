-- ===== src/Providers/Sse.antt =====
-- The loop over the lines of a streamed answer that the providers of src/hoursx/providers share, and what is
-- streamed and what is kept in it.
pub mod Consistent
pub mod Run
use hours_x.Prelude.{
  List, [], ◌∷◌, ◌++◌, Bool, true, false, Option, none, some, String, if◌then◌else◌, str_eq, ◌&&◌,
  map, ◌≡◌, refl, sym, ap, ◌∙◌, append_assoc, append-nil, Bool-cases, Option-cases, inl, inr, arith,
}
use hours_x.Prelude.Text.{after_prefix, strip}
use hours_x.Json.{Value}
use hours_x.Providers.{
  ToolCall, ChatResult, Increment, text_part, call_part, StreamDelta, increment, done,
  collect_stream,
}

pub data Line : Type 0 where
  skipped last broken : Line
  event : Value → Line

-- What a step of the loop yields, and the variables after it, unless it raises.
abbrev pub Yields : Type 0 → Type 0
Yields S = List Increment × Option S

-- The rest follows, unless this part has raised.
abbrev pub and_rest : {S R : Type 0} → Yields S → (S → Yields R) → Yields R
and_rest (ds, none) rest = (ds, none)
and_rest (ds, some s) rest = let (more, after) = rest s in (ds ++ more, after)

-- `loads` is the decoder of JSON; `stops` tells whether a line with the closing mark ends the loop.
module _ (loads : String → Option Value) (stops : Bool) where
  abbrev decoded : Option Value → Line
  decoded none = broken
  decoded (some v) = event v

  abbrev read_data : String → Line
  read_data payload = if stops && str_eq payload "[DONE]" then last else decoded (loads payload)

  abbrev read_after : Option String → Line
  read_after none = skipped
  read_after (some rest) = read_data (strip rest)

  unfoldable pub read_line : String → Line
  read_line line = read_after (after_prefix "data:" line)

  module _ {S : Type 0} (step : S → Value → Yields S) where
    abbrev on_line : Line → S → (S → Yields S) → Yields S
    on_line skipped s rest = rest s
    on_line last s rest = ([], some s)
    on_line broken s rest = ([], none)
    on_line (event v) s rest = and_rest (step s v) rest

    unfoldable pub run_lines : List String → S → Yields S
    run_lines [] s = ([], some s)
    run_lines (line ∷ lines) s = on_line (read_line line) s (run_lines lines)

-- After the loop come the last increments and the result, unless they raise.
abbrev pub finished : List Increment → Option ChatResult → List StreamDelta
finished ds none = map increment ds
finished ds (some r) = map increment ds ++ done r ∷ []

abbrev pub close : {S : Type 0} → Yields S → (S → Yields ChatResult) → List StreamDelta
close y finish = let (ds, result) = and_rest y finish in finished ds result
