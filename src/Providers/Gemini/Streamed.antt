-- ===== src/Providers/Gemini/Streamed.antt =====
-- The stream of src/hoursx/providers/gemini.py holds what it yields.
use hours_x.Prelude.{
  ℕ, suc, List, [], ◌∷◌, Bool, false, Option, none, some, String, ◌≡◌, refl, sym, ap, ◌∙◌,
  append-nil,
}
use hours_x.Prelude.Text.{concat}
use hours_x.Json.{Value, null, get, has_key, first, item, as_text, truthy, ◌>>=◌}
use hours_x.Providers.{ToolCall}
use hours_x.Providers.Sse.{Yields, and_rest, run_lines}
use hours_x.Providers.Sse.Consistent.{
  if_either, Keeps, Keeps-refl, Keeps-trans, run_lines-Keeps, close-Consistent, Consistent,
}
use hours_x.Providers.Gemini.{
  State, start, says, makes, streamed_call, on_call, on_part, on_parts, usage_of, metered, settle,
  quiet, on_listed, parts_in, on_candidate, on_candidates, step, result_of, stream,
}

abbrev KeepsParts : State → Yields State → Type 0
KeepsParts = Keeps (λ (s : State). s.text_parts) (λ (s : State). s.tool_calls)

idle-Keeps : (s : State) → KeepsParts s ([], some s)
idle-Keeps = Keeps-refl (λ s. s.text_parts) (λ s. s.tool_calls)

then-Keeps :
    (s : State) (y : Yields State) (rest : State → Yields State)
    → KeepsParts s y
    → ((t : State) → KeepsParts t (rest t))
    → KeepsParts s (and_rest y rest)
then-Keeps = Keeps-trans (λ s. s.text_parts) (λ s. s.tool_calls)

-- A step that only changes other variables.
abbrev Silent : State → Option State → Type 0
Silent s none = Unit
Silent s (some t) = (t.text_parts ≡ s.text_parts) × (t.tool_calls ≡ s.tool_calls)

quiet-Keeps : (s : State) (after : Option State) → Silent s after → KeepsParts s (quiet after)
quiet-Keeps s none h = tt
quiet-Keeps s (some t) (e, f) =
    (e ∙ sym (append-nil s.text_parts), f ∙ sym (append-nil s.tool_calls))

>>=-Silent :
    {A : Type 0} (s : State) (x : Option A) (f : A → Option State)
    → ((a : A) → Silent s (f a))
    → Silent s (x >>= f)
>>=-Silent s none f h = tt
>>=-Silent s (some a) f h = h a

says-Keeps : (s : State) (part : Option String) → KeepsParts s (says s part)
says-Keeps s none = tt
says-Keeps s (some part) = (refl, sym (append-nil s.tool_calls))

makes-Keeps : (s : State) (call : Option ToolCall) → KeepsParts s (makes s call)
makes-Keeps s none = tt
makes-Keeps s (some call) = (sym (append-nil s.text_parts), refl)

on_call-Keeps :
    (s : State) (index : ℕ) (part : Value) (is_call : Option Bool)
    → KeepsParts s (on_call s index part is_call)
on_call-Keeps s index part none = tt
on_call-Keeps s index part (some is_call) =
    if_either (KeepsParts s) is_call (makes-Keeps s (streamed_call s index part)) (idle-Keeps s)

on_part-Keeps :
    (s : State) (index : ℕ) (part : Value) (is_said : Option Bool)
    → KeepsParts s (on_part s index part is_said)
on_part-Keeps s index part none = tt
on_part-Keeps s index part (some is_said) =
    if_either (KeepsParts s) is_said (says-Keeps s (item "text" part >>= as_text))
      (on_call-Keeps s index part (has_key "functionCall" part))

on_parts-Keeps :
    (index : ℕ) (parts : List Value) (s : State) → KeepsParts s (on_parts index parts s)
unfolding on_parts
on_parts-Keeps index [] s = idle-Keeps s
on_parts-Keeps index (part ∷ parts) s =
    then-Keeps s (on_part s index part (has_key "text" part)) (on_parts (suc index) parts)
      (on_part-Keeps s index part (has_key "text" part)) (on_parts-Keeps (suc index) parts)

metered-Silent : (s t : State) (meta : Value) → Silent s (some t) → Silent s (metered t meta)
metered-Silent s t meta h =
    if_either (Silent s) (truthy meta) (>>=-Silent s (usage_of meta) _ (λ usage. h)) h

settle-Silent : (s : State) (chunk candidate : Value) → Silent s (settle s chunk candidate)
settle-Silent s chunk candidate = >>=-Silent s (get "finishReason" null candidate) _ (λ reason.
    >>=-Silent s (get "usageMetadata" null chunk) _ (λ meta. metered-Silent s _ meta (refl, refl)))

on_listed-Keeps :
    (s : State) (chunk candidate : Value) (parts : Option (List Value))
    → KeepsParts s (on_listed s chunk candidate parts)
on_listed-Keeps s chunk candidate none = tt
on_listed-Keeps s chunk candidate (some parts) =
    then-Keeps s (on_parts 0 parts s) (λ t. quiet (settle t chunk candidate))
      (on_parts-Keeps 0 parts s)
      (λ t. quiet-Keeps t (settle t chunk candidate) (settle-Silent t chunk candidate))

on_candidate-Keeps :
    (s : State) (chunk : Value) (candidate : Option Value)
    → KeepsParts s (on_candidate s chunk candidate)
on_candidate-Keeps s chunk none = tt
on_candidate-Keeps s chunk (some candidate) = on_listed-Keeps s chunk candidate (parts_in candidate)

on_candidates-Keeps :
    (s : State) (chunk : Value) (candidates : Option Value)
    → KeepsParts s (on_candidates s chunk candidates)
on_candidates-Keeps s chunk none = tt
on_candidates-Keeps s chunk (some candidates) =
    if_either (KeepsParts s) (truthy candidates) (on_candidate-Keeps s chunk (first candidates))
      (idle-Keeps s)

step-Keeps : (s : State) (chunk : Value) → KeepsParts s (step s chunk)
unfolding step
step-Keeps s chunk = on_candidates-Keeps s chunk (get "candidates" null chunk)

-- A stream of the Gemini API that has a result ends with it: the content is the texts that were yielded
-- before, in order, and the calls are the calls that were yielded.
pub stream-Consistent :
    (loads : String → Option Value) (lines : List String) → Consistent (stream loads lines)
unfolding stream
stream-Consistent loads lines =
    close-Consistent (λ s. s.text_parts) (λ s. s.tool_calls) start
      (run_lines loads false step lines start) result_of refl refl
      (run_lines-Keeps (λ s. s.text_parts) (λ s. s.tool_calls) loads false step step-Keeps lines
        start)
      (λ s. (ap concat (sym (append-nil s.text_parts)), sym (append-nil s.tool_calls)))
