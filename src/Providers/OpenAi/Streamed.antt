-- ===== src/Providers/OpenAi/Streamed.antt =====
-- The stream of src/hoursx/providers/openai_compat.py holds what it yields.
use hours_x.Prelude.{
  List, [], ◌∷◌, ◌++◌, true, Option, none, some, String, ◌≡◌, refl, sym, ap, ◌∙◌, append-nil,
  append_assoc, length,
}
use hours_x.Prelude.Text.{concat}
use hours_x.Json.{
  Value, null, get, truthy, or_else, each, as_text, ◌>>=◌, empty_object, empty_array,
}
use hours_x.Providers.{ToolCall, ChatResult, call_part}
use hours_x.Providers.Sse.{Yields, and_rest, run_lines}
use hours_x.Providers.Sse.Consistent.{
  if_either, Keeps, Keeps-refl, Keeps-trans, run_lines-Keeps, close-Consistent, Consistent, Holds,
  texts, calls,
}
use hours_x.Providers.OpenAi.{
  State, start, Slots, sorted, said, says, settle, quiet, on_content, on_delta, on_choice,
  choice_of, step, slot_call, with_call, make_calls, result_of, stream, fragments_of,
}

-- The calls are made after the loop, so it keeps none.
abbrev KeepsTexts : State → Yields State → Type 0
KeepsTexts = Keeps (λ (s : State). s.text_parts) (λ (s : State). [])

abbrev Silent : State → Option State → Type 0
Silent s none = Unit
Silent s (some t) = t.text_parts ≡ s.text_parts

quiet-Keeps : (s : State) (after : Option State) → Silent s after → KeepsTexts s (quiet after)
quiet-Keeps s none h = tt
quiet-Keeps s (some t) e = (e ∙ sym (append-nil s.text_parts), refl)

said-Keeps : (s : State) (part : Option String) → KeepsTexts s (said s part)
said-Keeps s none = tt
said-Keeps s (some part) = (refl, refl)

says-Keeps : (s : State) (content : Value) → KeepsTexts s (says s content)
says-Keeps s content =
    if_either (KeepsTexts s) (truthy content) (said-Keeps s (as_text content))
      (Keeps-refl (λ s. s.text_parts) (λ s. []) s)

>>=-Silent :
    {A : Type 0} (s : State) (x : Option A) (f : A → Option State)
    → ((a : A) → Silent s (f a))
    → Silent s (x >>= f)
>>=-Silent s none f h = tt
>>=-Silent s (some a) f h = h a

settle-Silent : (s : State) (delta choice : Value) → Silent s (settle s delta choice)
settle-Silent s delta choice = >>=-Silent s (get "tool_calls" null delta) _ (λ raw.
    >>=-Silent s (each (or_else raw empty_array)) _ (λ raws.
      >>=-Silent s (fragments_of raws) _
        (λ fs. >>=-Silent s (get "finish_reason" null choice) _ (λ reason. refl))))

on_content-Keeps :
    (s : State) (delta choice : Value) (content : Option Value)
    → KeepsTexts s (on_content s delta choice content)
on_content-Keeps s delta choice none = tt
on_content-Keeps s delta choice (some content) =
    Keeps-trans (λ s. s.text_parts) (λ s. []) s (says s content)
      (λ t. quiet (settle t delta choice)) (says-Keeps s content)
      (λ t. quiet-Keeps t (settle t delta choice) (settle-Silent t delta choice))

on_delta-Keeps :
    (s : State) (choice : Value) (delta : Option Value) → KeepsTexts s (on_delta s choice delta)
on_delta-Keeps s choice none = tt
on_delta-Keeps s choice (some delta) = on_content-Keeps s delta choice (get "content" null delta)

on_choice-Keeps : (s : State) (choice : Option Value) → KeepsTexts s (on_choice s choice)
on_choice-Keeps s none = tt
on_choice-Keeps s (some choice) = on_delta-Keeps s choice (get "delta" empty_object choice)

step-Keeps : (s : State) (chunk : Value) → KeepsTexts s (step s chunk)
unfolding step
step-Keeps s chunk = on_choice-Keeps s (choice_of chunk)

module _ (loads : String → Option Value) where
  -- The calls that are made are the ones that are yielded.
  Makes : List ToolCall → Yields (List ToolCall) → Type 0
  Makes before (ds, none) = texts ds ≡ []
  Makes before (ds, some after) = (texts ds ≡ []) × (after ≡ before ++ calls ds)

  then_Makes :
      (before : List ToolCall) (call : ToolCall) (y : Yields (List ToolCall))
      → Makes (before ++ call ∷ []) y
      → Makes before (call_part call ∷ y.0, y.1)
  unfolding Makes
  then_Makes before call (ds, none) h = h
  then_Makes before call (ds, some after) (e, f) =
      (e, f ∙ append_assoc before (call ∷ []) (calls ds))

  with_call-Makes :
      (before : List ToolCall) (call : Option ToolCall)
      (rest : List ToolCall → Yields (List ToolCall))
      → ((cs : List ToolCall) → Makes cs (rest cs))
      → Makes before (with_call loads before call rest)
  unfolding Makes
  with_call-Makes before none rest k = refl
  with_call-Makes before (some call) rest k =
      then_Makes before call (rest (before ++ call ∷ [])) (k (before ++ call ∷ []))

  make_calls-Makes :
      (slots : Slots) (before : List ToolCall) → Makes before (make_calls loads slots before)
  unfolding make_calls Makes
  make_calls-Makes [] before = (refl, sym (append-nil before))
  make_calls-Makes ((i, slot) ∷ slots) before =
      with_call-Makes before (slot_call loads (length before) slot) (make_calls loads slots)
        (make_calls-Makes slots)

  -- The texts with those of the last part, which are none, and its calls.
  finish_Holds :
      (s : State) (y : Yields (List ToolCall)) (result : List ToolCall → ChatResult)
      → ((cs : List ToolCall) → Holds s.text_parts cs (some (result cs)))
      → Makes [] y
      → Holds
          (s.text_parts ++ texts (and_rest y (λ cs. ([], some (result cs)))).0)
          (calls (and_rest y (λ cs. ([], some (result cs)))).0)
          (and_rest y (λ cs. ([], some (result cs)))).1
  unfolding Makes
  finish_Holds s (ds, none) result h k = tt
  finish_Holds s (ds, some cs) result h (e, f) =
      let same : texts (ds ++ []) ≡ [] = ap texts (append-nil ds) ∙ e in
      (
        (h cs).0
            ∙ ap concat (sym (append-nil s.text_parts) ∙ ap (λ t. s.text_parts ++ t) (sym same)),
        (h cs).1 ∙ f ∙ ap calls (sym (append-nil ds)),
      )

  -- A stream of the chat-completions API that has a result ends with it: the content is the texts that were
  -- yielded before, in order, and the calls are the calls that were yielded.
  pub stream-Consistent : (lines : List String) → Consistent (stream loads lines)
  unfolding stream result_of
  stream-Consistent lines =
      close-Consistent (λ s. s.text_parts) (λ s. []) start (run_lines loads true step lines start)
        (result_of loads) refl refl
        (run_lines-Keeps (λ s. s.text_parts) (λ s. []) loads true step step-Keeps lines start)
        (λ s.
          finish_Holds s (make_calls loads (sorted s.partial_calls) []) _ (λ cs. (refl, refl))
            (make_calls-Makes (sorted s.partial_calls) []))
