-- ===== src/Runs/Loop/Pause.antt =====
-- Pausing a run of src/hoursx/agents.py at the approval gate and resuming it leads where the run would
-- have gone had its calls needed no approval.
use hours_x.Prelude.{
  ℕ, zero, suc, List, [], ◌∷◌, ◌++◌, Bool, true, false, String, ◌≡◌, ◌⊎◌, inl, inr, refl, sym, ap,
  ◌∙◌, arith,
}
use hours_x.Runs.Loop.{
  ToolCall, ChatMessage, Turn, ToolOutcome, Driver, Snap, Outcome, CallsEnd, turn_raises, answered,
  payload, approval_pending, tool_raises, tool_step, called, no_usage, all_done, gate_hit,
  calls_raise, finished, parked, left_running, record_step, after_turn, after_calls, after_tool,
  take_turn, begin_round, run_calls, model_loop, rounds_left, loop, tool_message,
}

-- A call that a human approved is run, and gives a payload.
abbrev pub Answers : Driver → Type 0
Answers d =
    (t : List ChatMessage) (call : ToolCall) → (x : String) × (d.run_tool t call true ≡ payload x)

-- The approval gate changes nothing but whether the call waits.
abbrev pub Transparent : Driver → Type 0
Transparent d =
    (t : List ChatMessage) (call : ToolCall)
    → (d.run_tool t call false ≡ approval_pending)
      ⊎ (d.run_tool t call false ≡ d.run_tool t call true)

-- The driver whose every call is approved beforehand.
abbrev pub ungated : Driver → Driver
ungated d = record d { run_tool = λ t call approved. d.run_tool t call true }

module _ (d : Driver) where
  -- Where the calls go without the gate that stopped them.
  past_gate : CallsEnd → CallsEnd
  past_gate (all_done t s) = all_done t s
  past_gate (gate_hit t call rest s) = run_calls (ungated d) (call ∷ rest) t s
  past_gate (calls_raise t s) = calls_raise t s

  -- Where the run goes without the gate that parked it.
  unfoldable pub past_pause : Outcome → Outcome
  past_pause (finished e t s) = finished e t s
  past_pause (parked t call rest s) = loop (ungated d) (call ∷ rest) t s
  past_pause (left_running t s) = left_running t s

  run_calls-past :
      Answers d
      → Transparent d
      → (calls : List ToolCall) (t : List ChatMessage) (s : Snap)
      → run_calls (ungated d) calls t s ≡ past_gate (run_calls d calls t s)
  unfolding run_calls after_tool past_gate
  run_calls-past answers clear [] t s = refl
  run_calls-past answers clear (call ∷ calls) t s = elim (clear t call) [
    | inl e ↦ rw e
    | inr e ↦
        let (x, a) = answers t call in
        rw (e, a)
          (run_calls-past answers clear calls (t ++ tool_message call x ∷ [])
            (record_step s tool_step (called call) no_usage))
  ]

  -- The calls of a turn leave the rounds that are left as they are.
  Aligned : ℕ → CallsEnd → Type 0
  Aligned n (all_done t s) = n ≡ rounds_left d s
  Aligned n (gate_hit t call rest s) = n ≡ rounds_left d s
  Aligned n (calls_raise t s) = Unit

  same_rounds :
      (go : ℕ → List ChatMessage → Snap → Outcome) (n : ℕ) (c : CallsEnd)
      → Aligned n c
      → after_calls (λ t s. go n t s) c ≡ after_calls (λ t s. go (rounds_left d s) t s) c
  unfolding Aligned after_calls
  same_rounds go n (all_done t s) h = ap (λ k. go k t s) h
  same_rounds go n (gate_hit t call rest s) h = refl
  same_rounds go n (calls_raise t s) h = refl

  after_tool-Aligned :
      (n : ℕ) (go : List ChatMessage → Snap → CallsEnd) (call : ToolCall) (calls : List ToolCall)
      (t : List ChatMessage) (s : Snap) (o : ToolOutcome)
      → ((t' : List ChatMessage) (s' : Snap) → n ≡ rounds_left d s' → Aligned n (go t' s'))
      → n ≡ rounds_left d s
      → Aligned n (after_tool go call calls t s o)
  unfolding after_tool Aligned record_step rounds_left
  after_tool-Aligned n go call calls t s (payload content) g h = g _ _ h
  after_tool-Aligned n go call calls t s approval_pending g h = h
  after_tool-Aligned n go call calls t s tool_raises g h = tt

  run_calls-Aligned :
      (e : Driver) (n : ℕ) (calls : List ToolCall) (t : List ChatMessage) (s : Snap)
      → n ≡ rounds_left d s
      → Aligned n (run_calls e calls t s)
  unfolding run_calls Aligned
  run_calls-Aligned e n [] t s h = h
  run_calls-Aligned e n (call ∷ calls) t s h =
      after_tool-Aligned n (λ t' s'. run_calls e calls t' s') call calls t s
        (e.run_tool t call false) (run_calls-Aligned e n calls) h

  -- With `n` rounds left, the run goes past every pause.
  PastFrom : ℕ → Type 0
  PastFrom n =
      (t : List ChatMessage) (s : Snap)
      → n ≡ rounds_left d s
      → model_loop (ungated d) n t s ≡ past_pause (model_loop d n t s)

  after_calls-past :
      (n : ℕ) (c : CallsEnd)
      → PastFrom n
      → Aligned n c
      → after_calls (λ t s. model_loop (ungated d) n t s) (past_gate c)
        ≡ past_pause (after_calls (λ t s. model_loop d n t s) c)
  unfolding after_calls past_gate past_pause Aligned PastFrom loop rounds_left
  after_calls-past n (all_done t s) past h = past t s h
  after_calls-past n (gate_hit t call rest s) past h =
      same_rounds (λ k t s. model_loop (ungated d) k t s) n _
        (run_calls-Aligned (ungated d) n (call ∷ rest) t s h)
  after_calls-past n (calls_raise t s) past h = refl

  module _ (answers : Answers d) (clear : Transparent d) where
    -- The calls of a turn, and what follows them.
    calls-past :
        (n : ℕ) (calls : List ToolCall) (t : List ChatMessage) (s : Snap)
        → PastFrom n
        → n ≡ rounds_left d s
        → after_calls (λ t s. model_loop (ungated d) n t s) (run_calls (ungated d) calls t s)
          ≡ past_pause (after_calls (λ t s. model_loop d n t s) (run_calls d calls t s))
    calls-past n calls t s past h =
        rw (run_calls-past answers clear calls t s)
          (after_calls-past n (run_calls d calls t s) past (run_calls-Aligned d n calls t s h))

    take_turn-past :
        (n : ℕ) (t : List ChatMessage) (s : Snap) (o : Turn)
        → PastFrom n
        → suc n ≡ rounds_left d s
        → take_turn (ungated d) (λ t s. model_loop (ungated d) n t s) t s o
          ≡ past_pause (take_turn d (λ t s. model_loop d n t s) t s o)
    unfolding take_turn past_pause rounds_left after_turn record_step
    take_turn-past n t s turn_raises past h = refl
    take_turn-past n t s (answered content [] usage) past h = refl
    take_turn-past n t s (answered content (call ∷ calls) usage) past h =
        calls-past n (call ∷ calls) _ (after_turn s usage) past (omega (arith, h))

    begin_round-past :
        (n : ℕ) (t : List ChatMessage) (s : Snap) (b : Bool)
        → PastFrom n
        → suc n ≡ rounds_left d s
        → begin_round (ungated d) (λ t s. model_loop (ungated d) n t s) t s b
          ≡ past_pause (begin_round d (λ t s. model_loop d n t s) t s b)
    unfolding begin_round past_pause
    begin_round-past n t s true past h = refl
    begin_round-past n t s false past h = take_turn-past n t s (d.model t) past h

    model_loop-past : (n : ℕ) → PastFrom n
    unfolding PastFrom model_loop past_pause
    model_loop-past zero t s h = refl
    model_loop-past (suc n) t s h =
        begin_round-past n t s (d.cancel_requested s.step_count) (model_loop-past n) h

    -- Without the gate the run goes where it goes from its first pause without the gate.
    pub loop-past :
        (pending : List ToolCall) (t : List ChatMessage) (s : Snap)
        → loop (ungated d) pending t s ≡ past_pause (loop d pending t s)
    unfolding loop rounds_left
    loop-past pending t s =
        let n = rounds_left d s in
        sym (
          same_rounds (λ k t s. model_loop (ungated d) k t s) n _
            (run_calls-Aligned (ungated d) n pending t s refl))
        ∙ calls-past n pending t s (model_loop-past n) refl
        ∙ ap past_pause
            (same_rounds (λ k t s. model_loop d k t s) n _ (run_calls-Aligned d n pending t s refl))
