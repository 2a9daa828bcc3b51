-- ===== src/Providers/Anthropic/Agreement.antt =====
-- What src/hoursx/providers/anthropic.py makes of an answer that is streamed, and of the same answer sent whole.
use hours_x.Prelude.{
  suc, ℕ, List, [], ◌∷◌, ◌++◌, false, Option, none, some, String, if◌then◌else◌, str_eq, keep_if,
  map, All, ◌≡◌, refl, sym, ap, ◌∙◌, append-nil, append_assoc, Bool-cases, inl, inr, arith,
}
use hours_x.Prelude.Text.{concat}
use hours_x.Json.{Value, null, text, find, get, ◌>>=◌}
use hours_x.Providers.{ToolCall, no_usage, stop, collect_stream}
use hours_x.Providers.Sse.{Yields, run_lines, read_line, close}
use hours_x.Providers.Sse.Consistent.{collect-finished}
use hours_x.Providers.Sse.Run.{heard, states, states-append, run_lines-states}
use hours_x.Providers.Anthropic.{
  State, start, step, stream, block_start, block_stop, message_delta, finish_of, parse, on_kind,
  result_of,
}
use hours_x.Providers.Anthropic.Blocks.{
  Frame, Block, text_in, call_in, text_delta, json_delta, stop_event, end_event, block_events,
  events_of, texts_of, calls_of, is_read, matters, answered, body_of, IsDict, join_texts-text,
  parsed,
}

-- The variables between two blocks.
abbrev between_blocks : List String → List ToolCall → List Value → State
between_blocks ts cs js = record {
  text_parts = ts;
  tool_calls = cs;
  pending_tool = none;
  pending_json = js;
  finish = stop;
  usage = no_usage;
}

abbrev within_call : List String → List ToolCall → ToolCall → List Value → State
within_call ts cs call js = record (between_blocks ts cs js) {
  pending_tool = some (text call.id, text call.name);
}

>>=-ap :
    {A B : Type 0} {f g : A → Option B} (x : Option A) → ((a : A) → f a ≡ g a) → x >>= f ≡ x >>= g
>>=-ap none h = refl
>>=-ap (some a) h = h a

>>=-some : {A : Type 0} (x : Option A) → x >>= (λ a. some a) ≡ x
>>=-some none = refl
>>=-some (some a) = refl

module _ (loads : String → Option Value) where
  -- The JSON of a call's arguments decodes to them.
  abbrev pub Encodes : Block → Type 0
  Encodes (text_in parts) = Unit
  Encodes (call_in call parts) =
      loads (if str_eq (concat parts) "" then "{}" else concat parts) ≡ some call.arguments

  text_deltas :
      (i : ℕ) (parts ts : List String) (cs : List ToolCall) (js : List Value)
      → states (step loads) (map (text_delta i) parts) (between_blocks ts cs js)
        ≡ some (between_blocks (ts ++ parts) cs js)
  unfolding step find
  text_deltas i [] ts cs js = ap (λ t. some (between_blocks t cs js)) (sym (append-nil ts))
  text_deltas i (p ∷ parts) ts cs js =
      text_deltas i parts (ts ++ p ∷ []) cs js
      ∙ ap (λ t. some (between_blocks t cs js)) (append_assoc ts (p ∷ []) parts)

  json_deltas :
      (i : ℕ) (parts ts : List String) (cs : List ToolCall) (call : ToolCall) (js : List Value)
      → states (step loads) (map (json_delta i) parts) (within_call ts cs call js)
        ≡ some (within_call ts cs call (js ++ map text parts))
  unfolding step find
  json_deltas i [] ts cs call js = ap (λ t. some (within_call ts cs call t)) (sym (append-nil js))
  json_deltas i (p ∷ parts) ts cs call js =
      json_deltas i parts ts cs call (js ++ text p ∷ [])
      ∙ ap (λ t. some (within_call ts cs call t)) (append_assoc js (text p ∷ []) (map text parts))

  call_made :
      (i : ℕ) (ts : List String) (cs : List ToolCall) (call : ToolCall) (parts : List String)
      → IsDict call
      → Encodes (call_in call parts)
      → (step loads (within_call ts cs call (map text parts)) (stop_event i)).1
        ≡ some (between_blocks ts (cs ++ call ∷ []) (map text parts))
  unfolding step find block_stop
  call_made i ts cs call parts d e = rw (join_texts-text parts, e, d)

  -- The variables after the events of a block.
  then_states :
      (vs ws : List Value) (s t : State) (after : Option State)
      → states (step loads) vs s ≡ some t
      → states (step loads) ws t ≡ after
      → states (step loads) (vs ++ ws) s ≡ after
  then_states vs ws s t after e f =
      states-append (step loads) vs ws s ∙ ap (λ o. o >>= states (step loads) ws) e ∙ f

  one_step :
      (v : Value) (s : State) (after : Option State)
      → (step loads s v).1 ≡ after
      → states (step loads) (v ∷ []) s ≡ after
  one_step v s after e = ap (λ o. o >>= λ t. some t) e ∙ >>=-some after

  text_states :
      (i : ℕ) (parts ts : List String) (cs : List ToolCall) (js : List Value)
      → states (step loads) (block_events i (text_in parts)) (between_blocks ts cs js)
        ≡ some (between_blocks (ts ++ parts) cs js)
  unfolding step find block_start block_stop
  text_states i parts ts cs js =
      then_states (map (text_delta i) parts) (stop_event i ∷ []) (between_blocks ts cs js)
        (between_blocks (ts ++ parts) cs js) _ (text_deltas i parts ts cs js) refl

  call_states :
      (i : ℕ) (call : ToolCall) (parts ts : List String) (cs : List ToolCall) (js : List Value)
      → IsDict call
      → Encodes (call_in call parts)
      → states (step loads) (block_events i (call_in call parts)) (between_blocks ts cs js)
        ≡ some (between_blocks ts (cs ++ call ∷ []) (map text parts))
  unfolding step find block_start
  call_states i call parts ts cs js d e =
      then_states (map (json_delta i) parts) (stop_event i ∷ []) (within_call ts cs call [])
        (within_call ts cs call (map text parts)) _ (json_deltas i parts ts cs call [])
        (one_step (stop_event i) (within_call ts cs call (map text parts)) _
          (call_made i ts cs call parts d e))

  -- What the events of an answer leave.
  Leaves : ℕ → List Block → List String → List ToolCall → List Value → Type 0
  Leaves i bs ts cs js =
      (ks : List Value) × (states (step loads) (events_of i bs) (between_blocks ts cs js)
        ≡ some (between_blocks (ts ++ texts_of bs) (cs ++ calls_of bs) ks))

  events-states :
      (i : ℕ) (bs : List Block) (ts : List String) (cs : List ToolCall) (js : List Value)
      → All IsDict (calls_of bs)
      → All Encodes bs
      → Leaves i bs ts cs js
  unfolding Leaves
  events-states i [] ts cs js d e = (js, rw (append-nil ts, append-nil cs))
  events-states i (text_in parts ∷ bs) ts cs js d e =
      let (ks, rest) = events-states (suc i) bs (ts ++ parts) cs js d e.1 in
      (
        ks,
        then_states (block_events i (text_in parts)) (events_of (suc i) bs)
              (between_blocks ts cs js) (between_blocks (ts ++ parts) cs js) _
              (text_states i parts ts cs js) rest
            ∙ ap (λ t. some (between_blocks t (cs ++ calls_of bs) ks))
                (append_assoc ts parts (texts_of bs)),
      )
  events-states i (call_in call parts ∷ bs) ts cs js d e =
      let (ks, rest) = events-states (suc i) bs ts (cs ++ call ∷ []) (map text parts) d.1 e.1 in
      (
        ks,
        then_states (block_events i (call_in call parts)) (events_of (suc i) bs)
              (between_blocks ts cs js) (between_blocks ts (cs ++ call ∷ []) (map text parts)) _
              (call_states i call parts ts cs js d.0 e.0) rest
            ∙ ap (λ t. some (between_blocks (ts ++ texts_of bs) t ks))
                (append_assoc cs (call ∷ []) (calls_of bs)),
      )

  ignored :
      (s : State) (v : Value) (kind : Option Value)
      → is_read kind ≡ false
      → (on_kind loads s v kind).1 ≡ some s
  unfolding on_kind
  ignored s v none h = cc
  ignored s v (some kind) h = ground arith

  states-keep_if :
      (vs : List Value) (s : State)
      → states (step loads) vs s ≡ states (step loads) (keep_if matters vs) s
  unfolding step
  states-keep_if [] s = refl
  states-keep_if (v ∷ vs) s = elim (Bool-cases (matters v)) [
    | inl e ↦
        >>=-ap (step loads s v).1 (states-keep_if vs)
        ∙ ap (λ b. states (step loads) (if b then v ∷ keep_if matters vs else keep_if matters vs) s)
            (sym e)
    | inr e ↦
        ap (λ o. o >>= states (step loads) vs) (ignored s v (get "type" null v) e)
        ∙ states-keep_if vs s
        ∙ ap (λ b. states (step loads) (if b then v ∷ keep_if matters vs else keep_if matters vs) s)
            (sym e)
  ]

  ended_states :
      (frame : Frame) (ts : List String) (cs : List ToolCall) (js : List Value) (reason : Value)
      (output : ℕ)
      → states (step loads) (end_event frame reason output ∷ []) (between_blocks ts cs js)
        ≡ some (record (between_blocks ts cs js) {
          finish = finish_of reason;
          usage = record { input_tokens = 0; output_tokens = output };
        })
  unfolding step find message_delta
  ended_states frame ts cs js reason output = refl

  result_after :
      (y : Yields State) (s : State)
      → y.1 ≡ some s
      → collect_stream (close y (result_of loads)) ≡ (result_of loads s).1
  result_after (ds, none) s e = cc
  result_after (ds, some t) s e =
      collect-finished (ds ++ []) _ ∙ ap (λ o. o >>= λ u. (result_of loads u).1) e

  streamed :
      (lines : List String) (vs : List Value) (frame : Frame) (bs : List Block) (reason : Value)
      (output : ℕ)
      → All IsDict (calls_of bs)
      → All Encodes bs
      → heard (map (read_line loads false) lines) ≡ some vs
      → keep_if matters vs ≡ events_of 0 bs ++ end_event frame reason output ∷ []
      → collect_stream (stream loads lines) ≡ some (answered bs reason 0 output)
  unfolding stream Leaves
  streamed lines vs frame bs reason output d e h k =
      let (ks, left) = events-states 0 bs [] [] [] d e in
      let end = record (between_blocks (texts_of bs) (calls_of bs) ks) {
        finish = finish_of reason;
        usage = record { input_tokens = 0; output_tokens = output };
      } in
      result_after (run_lines loads false (step loads) lines start) end (
        run_lines-states loads false (step loads) lines vs h start
        ∙ states-keep_if vs start
        ∙ ap (λ us. states (step loads) us start) k
        ∙ then_states (events_of 0 bs) (end_event frame reason output ∷ []) start
            (between_blocks (texts_of bs) (calls_of bs) ks) _ left
            (ended_states frame (texts_of bs) (calls_of bs) ks reason output))

-- A streamed answer whose events are those of the blocks of a whole answer, with any others between that the
-- loop passes over, gives the message, the finish reason and the output tokens that the whole answer is
-- parsed to, and 0 input tokens, whatever the service counted. Events and bodies have the fields that the
-- service documents: numbers of blocks, a stop sequence, an id, a model and further counts among them.
pub stream-parse :
    (loads : String → Option Value) (lines : List String) (vs : List Value) (frame : Frame)
    (bs : List Block) (reason : Value) (input output : ℕ)
    → All IsDict (calls_of bs)
    → All (Encodes loads) bs
    → heard (map (read_line loads false) lines) ≡ some vs
    → keep_if matters vs ≡ events_of 0 bs ++ end_event frame reason output ∷ []
    → (parse (body_of frame bs reason input output) ≡ some (answered bs reason input output))
      × (collect_stream (stream loads lines) ≡ some (answered bs reason 0 output))
stream-parse loads lines vs frame bs reason input output d e h k =
    (parsed frame bs reason input output d, streamed loads lines vs frame bs reason output d e h k)
