-- ===== src/Pagination.antt =====
-- Keyset pagination: src/hoursx/pagination.py. The rows are those of the query, with the order of their
-- keys; the text of a cursor is left to `encode` and `decode` of the standard library.
pub mod Walk
mod Tests
use hours_x.Prelude.{
  ℕ, zero, suc, ◌+◌, List, [], ◌∷◌, Bool, true, false, ◌&&◌, ◌||◌, not, Option, none, some, String,
  if◌then◌else◌, length, take, keep_if, ltb, leb, ◌==◌, str_eq, min,
}

pub record Cursor : Type 0 where
  pub created_at : ℕ
  pub id : String

-- `none` is the `ValidationError`.
unfoldable pub resolve_page_size : Option ℕ → ℕ → ℕ → Option ℕ
resolve_page_size none default maximum = some default
resolve_page_size (some requested) default maximum =
    if ltb requested 1 then none else some (min requested maximum)

-- The order of the identifiers is the database's.
module _ (id_before : String → String → Bool) where
  -- created_at < anchor.created_at or (created_at = anchor.created_at and id < anchor.id)
  unfoldable pub is_past : Cursor → Cursor → Bool
  is_past anchor row =
      ltb row.created_at anchor.created_at
      || (row.created_at == anchor.created_at && id_before row.id anchor.id)

  -- The rows are newest first already; one more than the limit is fetched.
  unfoldable pub apply_keyset : Option Cursor → ℕ → List Cursor → List Cursor
  apply_keyset none limit rows = take (suc limit) rows
  apply_keyset (some anchor) limit rows = take (suc limit) (keep_if (is_past anchor) rows)

unfoldable pub last_of : List Cursor → Option Cursor
last_of [] = none
last_of (x ∷ []) = some x
last_of (x ∷ y ∷ xs) = last_of (y ∷ xs)

pub record Page : Type 0 where
  pub items : List Cursor
  pub next_cursor : Option Cursor

unfoldable pub build_page : List Cursor → ℕ → Page
build_page rows limit = record {
  items = take limit rows;
  next_cursor = if ltb limit (length rows) then last_of (take limit rows) else none;
}
