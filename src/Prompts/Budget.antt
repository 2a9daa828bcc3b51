-- ===== src/Prompts/Budget.antt =====
-- What of the history a context keeps: `ContextBuilder.build` of src/hoursx/prompts.py.
use mathlib.Core.List.{reverse}
use hours_x.Prelude.{
  ℕ, ◌+◌, ◌≤◌, ◌<◌, List, [], ◌∷◌, ◌++◌, Bool, true, false, ◌&&◌, ltb, length, ◌≡◌, ◌⊎◌, refl, ap,
  arith, subst, Bool-cases, inl, inr,
}
use hours_x.Prompts.{
  ChatMessage, ContextBuilder, message_cost, walk, build, system_messages, fixed_cost,
}

unfoldable pub total : List ChatMessage → ℕ
total [] = 0
total (m ∷ ms) = message_cost m + total ms

and_false : (b : Bool) → (b && false) ≡ false
and_false true = refl
and_false false = refl

module _ (budget : ℕ) where
  -- The next older message would have gone past the budget, if there is one.
  abbrev pub Full : ℕ → List ChatMessage → Type 0
  Full spent [] = Unit
  Full spent (m ∷ ms) = budget < spent + message_cost m

  Walked : ℕ → List ChatMessage → List ChatMessage → Type 0
  Walked spent ms newest =
      (older : List ChatMessage) × (ms ≡ newest ++ older)
      × ((newest ≡ []) ⊎ (spent + total newest ≤ budget))
      × Full (spent + total newest) older

  all_fit :
      (spent : ℕ) (m : ChatMessage) (rest : List ChatMessage)
      → spent + message_cost m ≤ budget
      → (rest ≡ []) ⊎ (spent + message_cost m + total rest ≤ budget)
      → spent + (message_cost m + total rest) ≤ budget
  unfolding total
  all_fit spent m rest h (inl e) = rw e (omega (arith, h))
  all_fit spent m rest h (inr room) = omega (arith, room)

  walk-Walked : (spent : ℕ) (ms : List ChatMessage) → Walked spent ms (walk budget spent true ms)
  unfolding walk total Walked
  walk-Walked spent [] = ([], refl, inl refl, tt)
  walk-Walked spent (m ∷ ms) = elim (Bool-cases (ltb budget (spent + message_cost m))) [
    | inl over ↦ rw over (m ∷ ms, refl, inl refl, ground (arith, over))
    | inr fits ↦
        let (older, split, room, full) = walk-Walked (spent + message_cost m) ms in
        let rest = walk budget (spent + message_cost m) true ms in
        rw fits (
          older,
          ap (λ t. m ∷ t) split,
          inr (all_fit spent m rest (ground (arith, fits)) room),
          subst (λ k. Full k older) (omega arith) full,
        )
  ]

  -- What a walk that has kept nothing yet keeps.
  Kept : ℕ → List ChatMessage → List ChatMessage → Type 0
  Kept spent ms newest =
      (older : List ChatMessage) × (ms ≡ newest ++ older)
      × ((length newest ≤ 1) ⊎ (spent + total newest ≤ budget))
      × Full (spent + total newest) older
      × ((ms ≡ []) ⊎ (1 ≤ length newest))

  one_or_fits :
      (spent : ℕ) (m : ChatMessage) (rest : List ChatMessage)
      → (rest ≡ []) ⊎ (spent + message_cost m + total rest ≤ budget)
      → (length (m ∷ rest) ≤ 1) ⊎ (spent + total (m ∷ rest) ≤ budget)
  unfolding total
  one_or_fits spent m rest (inl e) = inl (rw e (omega arith))
  one_or_fits spent m rest (inr room) = inr (omega (arith, room))

  walk-Kept : (spent : ℕ) (ms : List ChatMessage) → Kept spent ms (walk budget spent false ms)
  unfolding walk total Walked Kept
  walk-Kept spent [] = ([], refl, inl (omega arith), tt, inl refl)
  walk-Kept spent (m ∷ ms) =
      let (older, split, room, full) = walk-Walked (spent + message_cost m) ms in
      let rest = walk budget (spent + message_cost m) true ms in
      rw (and_false (ltb budget (spent + message_cost m))) (
        older,
        ap (λ t. m ∷ t) split,
        one_or_fits spent m rest room,
        subst (λ k. Full k older) (omega arith) full,
        inr (omega arith),
      )

-- A context is the system messages and the newest part of the history, in its order. That part fits
-- into the budget with them, or it is one message; the next older message, if there is one, would
-- have gone past the budget; and of a history that is not empty the newest message is always kept.
pub build-Kept :
    (c : ContextBuilder)
    → (newest older : List ChatMessage) × (build c ≡ system_messages c ++ reverse newest)
      × (reverse c.history ≡ newest ++ older)
      × ((length newest ≤ 1) ⊎ (fixed_cost (system_messages c) + total newest ≤ c.token_budget))
      × Full c.token_budget (fixed_cost (system_messages c) + total newest) older
      × ((reverse c.history ≡ []) ⊎ (1 ≤ length newest))
unfolding build Kept
build-Kept c =
    let (older, split, fits, full, some_kept) =
      walk-Kept c.token_budget (fixed_cost (system_messages c)) (reverse c.history) in
    (
      walk c.token_budget (fixed_cost (system_messages c)) false (reverse c.history),
      older,
      refl,
      split,
      fits,
      full,
      some_kept,
    )
