-- ===== src/Runs/Loop/Tokens.antt =====
-- The token counts of a snapshot of src/hoursx/agents.py, and what is noted of its recorded steps, do not
-- steer the loop.
use hours_x.Prelude.{
  ℕ, zero, suc, ◌+◌, List, [], ◌∷◌, ◌++◌, Bool, true, false, ◌≡◌, refl, sym, ap, ◌∙◌, map,
}
use hours_x.Runs.Loop.{
  ToolCall, ChatMessage, assistant, Usage, RunStep, StepDetail, turn, called, decided, model_step,
  succeeded, cancelled, step_limit_reached, runtime_error, tool_message, Turn, ToolOutcome, Driver,
  Snap, Outcome, CallsEnd, turn_raises, answered, payload, approval_pending, tool_raises, tool_step,
  no_usage, all_done, gate_hit, calls_raise, finished, parked, left_running, record_step,
  after_turn, after_calls, after_tool, take_turn, begin_round, run_calls, model_loop, rounds_left,
  loop,
}

-- A call that was decided on counts as one that was called.
abbrev pub blur_detail : StepDetail → StepDetail
blur_detail turn = turn
blur_detail (called call) = called call
blur_detail (decided call approved) = called call

abbrev pub blur : RunStep → RunStep
blur r = record r { detail = blur_detail r.detail }

blur_detail-twice : (x : StepDetail) → blur_detail (blur_detail x) ≡ blur_detail x
blur_detail-twice turn = refl
blur_detail-twice (called call) = refl
blur_detail-twice (decided call approved) = refl

blur-twice : (r : RunStep) → blur (blur r) ≡ blur r
blur-twice r = ap (λ x. record r { detail = x }) (blur_detail-twice r.detail)

abbrev pub drop_tokens : Snap → Snap
drop_tokens s = record s { tokens = no_usage; steps = map blur s.steps }

pub blur-snoc :
    (rs : List RunStep) (r : RunStep) → map blur (rs ++ r ∷ []) ≡ map blur rs ++ blur r ∷ []
blur-snoc [] r = refl
blur-snoc (x ∷ xs) r = ap (λ t. blur x ∷ t) (blur-snoc xs r)

blur-blur : (rs : List RunStep) → map blur (map blur rs) ≡ map blur rs
blur-blur [] = refl
blur-blur (x ∷ xs) = rw (blur-twice x, blur-blur xs) refl

pub drop-drop : (s : Snap) → drop_tokens (drop_tokens s) ≡ drop_tokens s
drop-drop s = ap (λ x. record s { tokens = no_usage; steps = x }) (blur-blur s.steps)

-- A step is recorded the same whatever was noted before it.
drop-called :
    (s : Snap) (call : ToolCall)
    → record_step (drop_tokens s) tool_step (called call) no_usage
      ≡ drop_tokens (record_step s tool_step (called call) no_usage)
unfolding record_step
drop-called s call =
    ap (λ x. record s { step_seq = s.step_seq + 1; tokens = no_usage; steps = x })
      (sym (blur-snoc s.steps _))

drop-turn :
    (s : Snap) (u : Usage)
    → drop_tokens (after_turn (drop_tokens s) u) ≡ drop_tokens (after_turn s u)
unfolding after_turn record_step
drop-turn s u =
    let r : RunStep = record { index = s.step_seq; kind = model_step; detail = turn; usage = u } in
    ap
      (λ x. record s {
        step_count = s.step_count + 1;
        step_seq = s.step_seq + 1;
        tokens = no_usage;
        steps = x;
      })
      (blur-snoc (map blur s.steps) r
        ∙ ap (λ t. t ++ r ∷ []) (blur-blur s.steps)
        ∙ sym (blur-snoc s.steps r))

-- What an outcome is but for its token counts and for which calls were decided on.
abbrev pub forget : Outcome → Outcome
forget (finished e t s) = finished e t (drop_tokens s)
forget (parked t call rest s) = parked t call rest (drop_tokens s)
forget (left_running t s) = left_running t (drop_tokens s)

abbrev drop_end : CallsEnd → CallsEnd
drop_end (all_done t s) = all_done t (drop_tokens s)
drop_end (gate_hit t call rest s) = gate_hit t call rest (drop_tokens s)
drop_end (calls_raise t s) = calls_raise t (drop_tokens s)

module _ (d : Driver) where
  after_tool-drop :
      (go : List ChatMessage → Snap → CallsEnd) (call : ToolCall) (calls : List ToolCall)
      (t : List ChatMessage) (s : Snap) (o : ToolOutcome)
      → ((t' : List ChatMessage) (s' : Snap) → go t' (drop_tokens s') ≡ drop_end (go t' s'))
      → after_tool go call calls t (drop_tokens s) o ≡ drop_end (after_tool go call calls t s o)
  unfolding after_tool
  after_tool-drop go call calls t s (payload content) g =
      ap (go (t ++ tool_message call content ∷ [])) (drop-called s call)
      ∙ g _ (record_step s tool_step (called call) no_usage)
  after_tool-drop go call calls t s approval_pending g = refl
  after_tool-drop go call calls t s tool_raises g = refl

  run_calls-drop :
      (calls : List ToolCall) (t : List ChatMessage) (s : Snap)
      → run_calls d calls t (drop_tokens s) ≡ drop_end (run_calls d calls t s)
  unfolding run_calls
  run_calls-drop [] t s = refl
  run_calls-drop (call ∷ calls) t s =
      after_tool-drop (λ t' s'. run_calls d calls t' s') call calls t s (d.run_tool t call false)
        (run_calls-drop calls)

  -- A continuation that does not read the tokens.
  abbrev Blind : (List ChatMessage → Snap → Outcome) → Type 0
  Blind go = (t : List ChatMessage) (s : Snap) → forget (go t (drop_tokens s)) ≡ forget (go t s)

  after_calls-drop :
      (go : List ChatMessage → Snap → Outcome) (c : CallsEnd)
      → Blind go
      → forget (after_calls go (drop_end c)) ≡ forget (after_calls go c)
  unfolding after_calls
  after_calls-drop go (all_done t s) g = g t s
  after_calls-drop go (gate_hit t call rest s) g = ap (parked t call rest) (drop-drop s)
  after_calls-drop go (calls_raise t s) g = ap (finished runtime_error t) (drop-drop s)

  calls-drop :
      (go : List ChatMessage → Snap → Outcome) (calls : List ToolCall) (t : List ChatMessage)
      (s : Snap)
      → Blind go
      → forget (after_calls go (run_calls d calls t (drop_tokens s)))
        ≡ forget (after_calls go (run_calls d calls t s))
  calls-drop go calls t s g =
      ap (λ c. forget (after_calls go c)) (run_calls-drop calls t s)
      ∙ after_calls-drop go (run_calls d calls t s) g

  take_turn-drop :
      (go : List ChatMessage → Snap → Outcome) (t : List ChatMessage) (s : Snap) (o : Turn)
      → Blind go
      → forget (take_turn d go t (drop_tokens s) o) ≡ forget (take_turn d go t s o)
  unfolding take_turn
  take_turn-drop go t s turn_raises g = ap (finished runtime_error t) (drop-drop s)
  take_turn-drop go t s (answered content [] usage) g =
      ap (finished (succeeded content) (t ++ assistant content [] ∷ [])) (drop-turn s usage)
  take_turn-drop go t s (answered content (call ∷ calls) usage) g =
      let t' = t ++ assistant content (call ∷ calls) ∷ [] in
      sym (calls-drop go (call ∷ calls) t' (after_turn (drop_tokens s) usage) g)
      ∙ ap (λ x. forget (after_calls go (run_calls d (call ∷ calls) t' x))) (drop-turn s usage)
      ∙ calls-drop go (call ∷ calls) t' (after_turn s usage) g

  begin_round-drop :
      (go : List ChatMessage → Snap → Outcome) (t : List ChatMessage) (s : Snap) (b : Bool)
      → Blind go
      → forget (begin_round d go t (drop_tokens s) b) ≡ forget (begin_round d go t s b)
  unfolding begin_round
  begin_round-drop go t s true g = ap (finished cancelled t) (drop-drop s)
  begin_round-drop go t s false g = take_turn-drop go t s (d.model t) g

  model_loop-Blind : (n : ℕ) → Blind (λ t s. model_loop d n t s)
  unfolding model_loop
  model_loop-Blind zero t s = ap (finished step_limit_reached t) (drop-drop s)
  model_loop-Blind (suc n) t s =
      begin_round-drop (λ t' s'. model_loop d n t' s') t s (d.cancel_requested s.step_count)
        (model_loop-Blind n)

  -- Where a run goes does not depend on the tokens that it starts with, nor on what is noted of its steps.
  pub loop-drop :
      (pending : List ToolCall) (t : List ChatMessage) (s : Snap)
      → forget (loop d pending t (drop_tokens s)) ≡ forget (loop d pending t s)
  unfolding loop rounds_left
  loop-drop pending t s =
      calls-drop (λ t' s'. model_loop d (rounds_left d s') t' s') pending t s
        (λ t' s'. model_loop-Blind (rounds_left d s') t' s')
