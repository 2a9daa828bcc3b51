-- ===== src/Prompts.antt =====
-- The context of a model call: `ContextBuilder` of src/hoursx/prompts.py, and the working memory of
-- src/hoursx/memory.py. The names and calls of a message are left out.
pub mod Budget
mod Tests
use Prim.Native.String.{◌++◌ as text_append}
use mathlib.Core.List.{reverse}
use hours_x.Prelude.{
  ℕ, ◌+◌, ◌-◌, ◌/◌, max, List, [], ◌∷◌, ◌++◌, Bool, true, false, ◌&&◌, Option, none, some, String,
  if◌then◌else◌, ltb, str_eq, length, drop, map, non_empty,
}
use hours_x.Prelude.Text.{count, join}

pub data ChatRole : Type 0 where
  system user assistant tool : ChatRole

pub record ChatMessage : Type 0 where
  pub role : ChatRole
  pub content : String

pub record ContextBuilder : Type 0 where
  pub token_budget : ℕ
  pub aux_section_budget : ℕ
  pub system_prompt : String
  pub memory_notes : List String
  pub knowledge_excerpts : List String
  pub history : List ChatMessage

abbrev pub memory_header : String
memory_header = "Relevant long-term memory:"

abbrev pub knowledge_header : String
knowledge_header = "Relevant knowledge base excerpts:"

unfoldable pub estimate_tokens : String → ℕ
estimate_tokens text = max 1 (count text / 4)

-- The items that the loop takes before the first that does not fit.
unfoldable pub take_items : ℕ → ℕ → List String → List String
take_items budget spent [] = []
take_items budget spent (item ∷ items) =
    let rest = take_items budget (spent + estimate_tokens item) items in
    if ltb budget (spent + estimate_tokens item) then [] else item ∷ rest

unfoldable pub bounded_section : ℕ → String → List String → Option String
bounded_section budget header items =
    let lines =
      header
      ∷ map (λ item. text_append "- " item) (take_items budget (estimate_tokens header) items) in
    if non_empty items && ltb 1 (length lines) then some (join "\n" lines) else none

abbrev pub to_list : Option String → List String
to_list none = []
to_list (some s) = s ∷ []

unfoldable pub system_parts : ContextBuilder → List String
system_parts c =
    (if str_eq c.system_prompt "" then [] else c.system_prompt ∷ [])
    ++ to_list (bounded_section c.aux_section_budget memory_header c.memory_notes)
    ++ to_list (bounded_section c.aux_section_budget knowledge_header c.knowledge_excerpts)

unfoldable pub system_messages : ContextBuilder → List ChatMessage
system_messages c =
    if non_empty (system_parts c)
    then record { role = system; content = join "\n\n" (system_parts c) } ∷ []
    else []

unfoldable pub fixed_cost : List ChatMessage → ℕ
fixed_cost [] = 0
fixed_cost (m ∷ ms) = estimate_tokens m.content + fixed_cost ms

unfoldable pub message_cost : ChatMessage → ℕ
message_cost m = estimate_tokens m.content + 8

-- The walk from the newest message on. `remaining - cost < 0` is that the cost takes what is spent past
-- the budget; `started` is the truth of `kept`.
unfoldable pub walk : ℕ → ℕ → Bool → List ChatMessage → List ChatMessage
walk budget spent started [] = []
walk budget spent started (m ∷ ms) =
    let rest = walk budget (spent + message_cost m) true ms in
    if ltb budget (spent + message_cost m) && started then [] else m ∷ rest

unfoldable pub build : ContextBuilder → List ChatMessage
build c =
    let messages = system_messages c in
    messages ++ reverse (walk c.token_budget (fixed_cost messages) false (reverse c.history))

pub record WorkingMemory : Type 0 where
  pub notes : List String
  pub max_notes : ℕ

unfoldable pub jot : String → WorkingMemory → WorkingMemory
jot note w =
    let notes = w.notes ++ note ∷ [] in
    record w {
      notes =
          if ltb w.max_notes (length notes) then drop (length notes - w.max_notes) notes else notes;
    }
