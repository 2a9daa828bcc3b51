-- ===== src/Pagination/Tests.antt =====
-- Three rows, two of them of the same time, in pages of two.
use hours_x.Prelude.{List, [], ◌∷◌, none, some, ltb, ◌≡◌, refl, String, Bool}
use hours_x.Prelude.Text.{count}
use hours_x.Pagination.{Cursor, resolve_page_size, is_past}
use hours_x.Pagination.Walk.{Descending, walk, walk_all}

-- Shorter names come first.
abbrev id_before : String → String → Bool
id_before a b = ltb (count a) (count b)

abbrev row : String → Cursor
row id = record { created_at = 7; id = id }

abbrev rows : List Cursor
rows = record { created_at = 9; id = "a" } ∷ row "bb" ∷ row "b" ∷ []

rows-Descending : Descending id_before rows
unfolding is_past count
rows-Descending =
    (refl, ((refl, refl), ((refl, refl), tt)), (refl, ((refl, refl), tt), (refl, tt, tt)))

resolve_zero : resolve_page_size (some 0) 20 100 ≡ none
unfolding resolve_page_size
resolve_zero = refl

walk_all_example : walk id_before 4 none 2 rows ≡ rows
walk_all_example = walk_all id_before 1 rows rows-Descending
