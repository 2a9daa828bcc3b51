-- ===== src/Providers/Sse/Consistent.antt =====
-- What a provider streams is what its result holds: the loops of src/hoursx/providers.
use hours_x.Prelude.{
  List, [], ◌∷◌, ◌++◌, Bool, true, false, Option, none, some, String, if◌then◌else◌, ◌≡◌, refl, sym,
  ap, ◌∙◌, subst, append_assoc, append-nil,
}
use hours_x.Prelude.Text.{concat}
use hours_x.Json.{Value}
use hours_x.Providers.{
  ToolCall, ChatResult, Increment, text_part, call_part, StreamDelta, increment, done,
  collect_stream,
}
use hours_x.Providers.Sse.{
  Line, skipped, last, broken, event, Yields, and_rest, on_line, run_lines, read_line, finished,
  close,
}

abbrev pub texts : List Increment → List String
texts [] = []
texts (text_part s ∷ ds) = s ∷ texts ds
texts (call_part c ∷ ds) = texts ds

abbrev pub calls : List Increment → List ToolCall
calls [] = []
calls (text_part s ∷ ds) = calls ds
calls (call_part c ∷ ds) = c ∷ calls ds

abbrev pub increments : List StreamDelta → List Increment
increments [] = []
increments (increment p ∷ ds) = p ∷ increments ds
increments (done r ∷ ds) = increments ds

texts-append : (ds es : List Increment) → texts (ds ++ es) ≡ texts ds ++ texts es
texts-append [] es = refl
texts-append (text_part s ∷ ds) es = ap (λ t. s ∷ t) (texts-append ds es)
texts-append (call_part c ∷ ds) es = texts-append ds es

calls-append : (ds es : List Increment) → calls (ds ++ es) ≡ calls ds ++ calls es
calls-append [] es = refl
calls-append (text_part s ∷ ds) es = calls-append ds es
calls-append (call_part c ∷ ds) es = ap (λ t. c ∷ t) (calls-append ds es)

collect-finished-none : (ds : List Increment) → collect_stream (finished ds none) ≡ none
unfolding collect_stream
collect-finished-none [] = refl
collect-finished-none (p ∷ ds) = collect-finished-none ds

pub collect-finished :
    (ds : List Increment) (r : ChatResult) → collect_stream (finished ds (some r)) ≡ some r
unfolding collect_stream
collect-finished [] r = refl
collect-finished (p ∷ ds) r = collect-finished ds r

increments-finished :
    (ds : List Increment) (result : Option ChatResult) → increments (finished ds result) ≡ ds
increments-finished [] none = refl
increments-finished [] (some r) = refl
increments-finished (p ∷ ds) none = ap (λ t. p ∷ t) (increments-finished ds none)
increments-finished (p ∷ ds) (some r) = ap (λ t. p ∷ t) (increments-finished ds (some r))

pub if_either :
    {A : Type 0} (P : A → Type 0) (b : Bool) {x y : A} → P x → P y → P (if b then x else y)
if_either P true h k = h
if_either P false h k = k

-- A result holds these texts and these calls; an exception holds nothing.
abbrev pub Holds : List String → List ToolCall → Option ChatResult → Type 0
Holds ts cs none = Unit
Holds ts cs (some r) = (r.message.content ≡ concat ts) × (r.message.tool_calls ≡ cs)

-- A stream that has a result ends with it, and the result holds what was streamed before.
abbrev pub Consistent : List StreamDelta → Type 0
Consistent ds = Holds (texts (increments ds)) (calls (increments ds)) (collect_stream ds)

finished-Consistent :
    (ds : List Increment) (result : Option ChatResult)
    → Holds (texts ds) (calls ds) result
    → Consistent (finished ds result)
finished-Consistent ds none h =
    subst (Holds (texts (increments (finished ds none))) (calls (increments (finished ds none))))
      (sym (collect-finished-none ds)) tt
finished-Consistent ds (some r) h =
    subst
      (Holds (texts (increments (finished ds (some r))))
        (calls (increments (finished ds (some r)))))
      (sym (collect-finished ds r))
      (subst (λ es. Holds (texts es) (calls es) (some r)) (sym (increments-finished ds (some r))) h)

-- A loop keeps its texts and its calls as it yields them.
module _ {S : Type 0} (kept_texts : S → List String) (kept_calls : S → List ToolCall) where
  abbrev pub Keeps : S → Yields S → Type 0
  Keeps s (ds, none) = Unit
  Keeps s (ds, some s') =
      (kept_texts s' ≡ kept_texts s ++ texts ds) × (kept_calls s' ≡ kept_calls s ++ calls ds)

  pub Keeps-refl : (s : S) → Keeps s ([], some s)
  Keeps-refl s = (sym (append-nil (kept_texts s)), sym (append-nil (kept_calls s)))

  then_Keeps :
      (s t : S) (ds : List Increment) (y : Yields S)
      → Keeps s (ds, some t)
      → Keeps t y
      → Keeps s (ds ++ y.0, y.1)
  then_Keeps s t ds (es, none) h k = tt
  then_Keeps s t ds (es, some u) h k = (
    k.0
        ∙ ap (λ x. x ++ texts es) h.0
        ∙ append_assoc (kept_texts s) (texts ds) (texts es)
        ∙ ap (λ x. kept_texts s ++ x) (sym (texts-append ds es)),
    k.1
        ∙ ap (λ x. x ++ calls es) h.1
        ∙ append_assoc (kept_calls s) (calls ds) (calls es)
        ∙ ap (λ x. kept_calls s ++ x) (sym (calls-append ds es)),
  )

  pub Keeps-trans :
      (s : S) (y : Yields S) (rest : S → Yields S)
      → Keeps s y
      → ((t : S) → Keeps t (rest t))
      → Keeps s (and_rest y rest)
  Keeps-trans s (ds, none) rest h k = tt
  Keeps-trans s (ds, some t) rest h k = then_Keeps s t ds (rest t) h (k t)

  module _ (loads : String → Option Value) (stops : Bool) (step : S → Value → Yields S)
      (step-Keeps : (s : S) (v : Value) → Keeps s (step s v)) where
    line-Keeps :
        (line : Line) (s : S) (rest : S → Yields S)
        → ((t : S) → Keeps t (rest t))
        → Keeps s (on_line loads stops step line s rest)
    line-Keeps skipped s rest k = k s
    line-Keeps last s rest k = Keeps-refl s
    line-Keeps broken s rest k = tt
    line-Keeps (event v) s rest k = Keeps-trans s (step s v) rest (step-Keeps s v) k

    pub run_lines-Keeps :
        (lines : List String) (s : S) → Keeps s (run_lines loads stops step lines s)
    unfolding run_lines
    run_lines-Keeps [] s = Keeps-refl s
    run_lines-Keeps (line ∷ lines) s =
        line-Keeps (read_line loads stops line) s (run_lines loads stops step lines)
          (run_lines-Keeps lines)

  -- A result that is made of the texts that were kept, and of the calls with those of the last part.
  abbrev pub Finishes : (S → Yields ChatResult) → Type 0
  Finishes finish =
      (s : S)
      → Holds (kept_texts s ++ texts (finish s).0) (kept_calls s ++ calls (finish s).0) (finish s).1

  pub close-Consistent :
      (s : S) (y : Yields S) (finish : S → Yields ChatResult)
      → kept_texts s ≡ []
      → kept_calls s ≡ []
      → Keeps s y
      → Finishes finish
      → Consistent (close y finish)
  close-Consistent s (ds, none) finish e f h k = finished-Consistent ds none tt
  close-Consistent s (ds, some t) finish e f h k =
      let es = (finish t).0 in
      let said =
        ap (λ x. x ++ texts es) (h.0 ∙ ap (λ x. x ++ texts ds) e) ∙ sym (texts-append ds es) in
      let made =
        ap (λ x. x ++ calls es) (h.1 ∙ ap (λ x. x ++ calls ds) f) ∙ sym (calls-append ds es) in
      finished-Consistent (ds ++ es) (finish t).1 (
        subst (λ cs. Holds (texts (ds ++ es)) cs (finish t).1) made
          (subst (λ ts. Holds ts (kept_calls t ++ calls es) (finish t).1) said (k t)))
