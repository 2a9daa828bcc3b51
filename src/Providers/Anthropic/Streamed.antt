-- ===== src/Providers/Anthropic/Streamed.antt =====
-- The stream of src/hoursx/providers/anthropic.py holds what it yields.
use hours_x.Prelude.{
  List, [], Bool, true, false, Option, none, some, String, ◌≡◌, refl, sym, ap, ◌∙◌, append-nil,
}
use hours_x.Prelude.Text.{concat}
use hours_x.Json.{Value, null, num, text, as_count, get, item, is_text, ◌>>=◌, empty_object}
use hours_x.Providers.{ToolCall}
use hours_x.Providers.Sse.{Yields, run_lines}
use hours_x.Providers.Sse.Consistent.{
  Keeps, Keeps-refl, run_lines-Keeps, close-Consistent, Consistent, if_either,
}
use hours_x.Providers.Anthropic.{
  State, start, quiet, says, makes, pend, block_start, on_delta, block_delta, message_delta,
  block_stop, on_kind, step, result_of, stream,
}

abbrev KeepsParts : State → Yields State → Type 0
KeepsParts = Keeps (λ (s : State). s.text_parts) (λ (s : State). s.tool_calls)

idle-Keeps : (s : State) → KeepsParts s ([], some s)
idle-Keeps = Keeps-refl (λ s. s.text_parts) (λ s. s.tool_calls)

-- A step that only changes other variables.
abbrev Silent : State → Option State → Type 0
Silent s none = Unit
Silent s (some t) = (t.text_parts ≡ s.text_parts) × (t.tool_calls ≡ s.tool_calls)

quiet-Keeps : (s : State) (after : Option State) → Silent s after → KeepsParts s (quiet after)
quiet-Keeps s none h = tt
quiet-Keeps s (some t) (e, f) =
    (e ∙ sym (append-nil s.text_parts), f ∙ sym (append-nil s.tool_calls))

says-Keeps : (s : State) (part : Option String) → KeepsParts s (says s part)
says-Keeps s none = tt
says-Keeps s (some part) = (refl, sym (append-nil s.tool_calls))

makes-Keeps : (s : State) (call : Option ToolCall) → KeepsParts s (makes s call)
makes-Keeps s none = tt
makes-Keeps s (some call) = (sym (append-nil s.text_parts), refl)

>>=-Silent :
    {A : Type 0} (s : State) (x : Option A) (f : A → Option State)
    → ((a : A) → Silent s (f a))
    → Silent s (x >>= f)
>>=-Silent s none f h = tt
>>=-Silent s (some a) f h = h a

pend-Silent : (s : State) (is_call : Bool) (block : Value) → Silent s (pend s is_call block)
pend-Silent s false block = (refl, refl)
pend-Silent s true block =
    >>=-Silent s (item "id" block) _
      (λ id. >>=-Silent s (item "name" block) _ (λ name. (refl, refl)))

block_start-Silent : (s : State) (event : Value) → Silent s (block_start s event)
unfolding block_start
block_start-Silent s event = >>=-Silent s (get "content_block" empty_object event) _ (λ block.
    >>=-Silent s (get "type" null block) _ (λ kind. pend-Silent s (is_text "tool_use" kind) block))

message_delta-Silent : (s : State) (event : Value) → Silent s (message_delta s event)
unfolding message_delta
message_delta-Silent s event = >>=-Silent s (get "delta" empty_object event) _ (λ delta.
    >>=-Silent s (get "stop_reason" null delta) _ (λ reason.
      >>=-Silent s (get "usage" empty_object event) _ (λ usage.
        >>=-Silent s (get "output_tokens" (num s.usage.output_tokens) usage) _
          (λ output. >>=-Silent s (as_count output) _ (λ n. (refl, refl))))))

on_delta-Keeps :
    (s : State) (delta : Value) (kind : Option Value) → KeepsParts s (on_delta s delta kind)
on_delta-Keeps s delta none = tt
on_delta-Keeps s delta (some kind) =
    if_either (KeepsParts s) (is_text "text_delta" kind) (says-Keeps s _) (
      if_either (KeepsParts s) (is_text "input_json_delta" kind)
        (quiet-Keeps s _
          (>>=-Silent s (get "partial_json" (text "") delta) _ (λ part. (refl, refl))))
        (idle-Keeps s))

block_delta-Keeps : (s : State) (delta : Option Value) → KeepsParts s (block_delta s delta)
block_delta-Keeps s none = tt
block_delta-Keeps s (some delta) = on_delta-Keeps s delta (get "type" null delta)

module _ (loads : String → Option Value) where
  block_stop-Keeps :
      (s : State) (pending : Option (Value × Value)) → KeepsParts s (block_stop loads s pending)
  unfolding block_stop
  block_stop-Keeps s none = idle-Keeps s
  block_stop-Keeps s (some (id, name)) = makes-Keeps s _

  on_kind-Keeps :
      (s : State) (event : Value) (kind : Option Value) → KeepsParts s (on_kind loads s event kind)
  unfolding on_kind
  on_kind-Keeps s event none = tt
  on_kind-Keeps s event (some kind) =
      if_either (KeepsParts s) (is_text "content_block_start" kind)
        (quiet-Keeps s _ (block_start-Silent s event))
        (if_either (KeepsParts s) (is_text "content_block_delta" kind)
          (block_delta-Keeps s (get "delta" empty_object event))
          (if_either (KeepsParts s) (is_text "content_block_stop" kind)
            (block_stop-Keeps s s.pending_tool)
            (if_either (KeepsParts s) (is_text "message_delta" kind)
              (quiet-Keeps s _ (message_delta-Silent s event)) (idle-Keeps s))))

  step-Keeps : (s : State) (event : Value) → KeepsParts s (step loads s event)
  unfolding step
  step-Keeps s event = on_kind-Keeps s event (get "type" null event)

  -- A stream of the Messages API that has a result ends with it: the content is the texts that were yielded
  -- before, in order, and the calls are the calls that were yielded.
  pub stream-Consistent : (lines : List String) → Consistent (stream loads lines)
  unfolding stream
  stream-Consistent lines =
      close-Consistent (λ s. s.text_parts) (λ s. s.tool_calls) start
        (run_lines loads false (step loads) lines start) (result_of loads) refl refl
        (run_lines-Keeps (λ s. s.text_parts) (λ s. s.tool_calls) loads false (step loads) step-Keeps
          lines start)
        (λ s. (ap concat (sym (append-nil s.text_parts)), sym (append-nil s.tool_calls)))
