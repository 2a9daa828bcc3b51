-- ===== src/Prompts/Tests.antt =====
-- A history of three messages in a budget for two.
use mathlib.Core.List.{reverse}
use hours_x.Prelude.{◌+◌, ◌≤◌, List, [], ◌∷◌, ◌++◌, length, ◌≡◌, ◌⊎◌, refl}
use hours_x.Prelude.Text.{count, join}
use hours_x.Prompts.{
  ChatMessage, ContextBuilder, user, assistant, system, build, walk, system_messages, system_parts,
  fixed_cost, message_cost, estimate_tokens, bounded_section, take_items,
}
use hours_x.Prompts.Budget.{total, Full, build-Kept}

abbrev builder : ContextBuilder
builder = record {
  token_budget = 22;
  aux_section_budget = 100;
  system_prompt = "Be brief.";
  memory_notes = [];
  knowledge_excerpts = [];
  history =
      record { role = user; content = "one" }
      ∷ record { role = assistant; content = "two" }
      ∷ record { role = user; content = "three" }
      ∷ [];
}

built :
    build builder
    ≡ record { role = system; content = "Be brief." }
      ∷ record { role = assistant; content = "two" }
      ∷ record { role = user; content = "three" }
      ∷ []
unfolding build walk system_messages system_parts fixed_cost message_cost estimate_tokens
    bounded_section take_items join count
built = refl

build-Kept_example :
    (newest older : List ChatMessage) × (build builder ≡ system_messages builder ++ reverse newest)
    × (reverse builder.history ≡ newest ++ older)
    × ((length newest ≤ 1)
        ⊎ (fixed_cost (system_messages builder) + total newest ≤ builder.token_budget))
    × Full builder.token_budget (fixed_cost (system_messages builder) + total newest) older
    × ((reverse builder.history ≡ []) ⊎ (1 ≤ length newest))
build-Kept_example = build-Kept builder
