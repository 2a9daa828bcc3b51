-- ===== src/Pagination/Walk.antt =====
-- Walking the pages of src/hoursx/pagination.py from the first on gives every row once, in order.
use hours_x.Prelude.{
  ℕ, zero, suc, ◌+◌, ◌≤◌, ◌<◌, List, [], ◌∷◌, ◌++◌, Bool, true, false, Option, none, some, String,
  length, take, drop, keep_if, ltb, ◌≡◌, refl, ap, ◌∙◌, arith, All, subst, Bool-cases, inl, inr,
  take-append-drop, length-drop,
}
use hours_x.Pagination.{Cursor, Page, is_past, apply_keyset, last_of, build_page}

module _ (id_before : String → String → Bool) where
  -- Newest first: each row is past every row before it, and no row is past itself or a later one.
  abbrev pub Descending : List Cursor → Type 0
  Descending [] = Unit
  Descending (r ∷ rs) =
      (is_past id_before r r ≡ false)
      × All (λ s. (is_past id_before r s ≡ true) × (is_past id_before s r ≡ false)) rs
      × Descending rs

  go_on : List Cursor → Option Cursor → (Cursor → List Cursor) → List Cursor
  go_on items none rest = items
  go_on items (some next) rest = items ++ rest next

  -- A client that follows `next_cursor`, at most `n` pages.
  unfoldable pub walk : ℕ → Option Cursor → ℕ → List Cursor → List Cursor
  unfolding go_on
  walk zero cursor limit rows = []
  walk (suc n) cursor limit rows =
      let page = build_page (apply_keyset id_before cursor limit rows) limit in
      go_on page.items page.next_cursor (λ next. walk n (some next) limit rows)

  keep_past-All :
      (r : Cursor) (rs : List Cursor)
      → All (λ s. (is_past id_before r s ≡ true) × (is_past id_before s r ≡ false)) rs
      → keep_if (is_past id_before r) rs ≡ rs
  keep_past-All r [] h = refl
  keep_past-All r (s ∷ rs) h = rw (h.0.0) (ap (λ ys. s ∷ ys) (keep_past-All r rs h.1))

  some_inj : (x c : Cursor) → ◌≡◌ {A = Option Cursor} (some x) (some c) → x ≡ c
  some_inj x c h = cc

  keep_no :
      (r : Cursor) (rs : List Cursor) (c : Cursor)
      → is_past id_before c r ≡ false
      → keep_if (is_past id_before c) (r ∷ rs) ≡ keep_if (is_past id_before c) rs
  keep_no r rs c e = rw e

  last-All :
      (P : Cursor → Type 0) (xs : List Cursor) (c : Cursor) → All P xs → last_of xs ≡ some c → P c
  unfolding last_of
  last-All P [] c a h = cc
  last-All P (x ∷ []) c a h = subst P (some_inj x c h) a.0
  last-All P (x ∷ y ∷ xs) c a h = last-All P (y ∷ xs) c a.1 h

  take-All : (P : Cursor → Type 0) (n : ℕ) (xs : List Cursor) → All P xs → All P (take n xs)
  take-All P zero xs a = tt
  take-All P (suc n) [] a = tt
  take-All P (suc n) (x ∷ xs) a = (a.0, take-All P n xs a.1)

  -- The rows past the last of a page are those behind the page.
  keep_past-last :
      (n : ℕ) (rows : List Cursor) (c : Cursor)
      → Descending rows
      → last_of (take n rows) ≡ some c
      → keep_if (is_past id_before c) rows ≡ drop n rows
  unfolding last_of
  keep_past-last zero rows c d h = cc
  keep_past-last (suc n) [] c d h = refl
  keep_past-last (suc zero) (r ∷ rs) c d h =
      subst (λ x. keep_if (is_past id_before x) (r ∷ rs) ≡ rs) (some_inj r c h)
        (rw (d.0) (keep_past-All r rs d.1))
  keep_past-last (suc (suc n)) (r ∷ []) c d h =
      subst (λ x. keep_if (is_past id_before x) (r ∷ []) ≡ []) (some_inj r c h) (rw (d.0) refl)
  keep_past-last (suc (suc n)) (r ∷ s ∷ rs) c d h =
      let behind =
        last-All (λ x. (is_past id_before r x ≡ true) × (is_past id_before x r ≡ false))
          (s ∷ take n rs) c (take-All _ (suc n) (s ∷ rs) d.1) h in
      keep_no r (s ∷ rs) c behind.1 ∙ keep_past-last (suc n) (s ∷ rs) c d.2 h

  last-cons :
      (r : Cursor) (xs : List Cursor) (c : Cursor) → last_of xs ≡ some c → last_of (r ∷ xs) ≡ some c
  unfolding last_of
  last-cons r [] c h = cc
  last-cons r (x ∷ xs) c h = h

  last-drop :
      (j k m : ℕ) (rows : List Cursor) (c : Cursor)
      → j ≡ k + suc m
      → last_of (take (suc m) (drop k rows)) ≡ some c
      → last_of (take j rows) ≡ some c
  unfolding last_of
  last-drop j zero m rows c e h =
      let same : suc m ≡ j = omega (arith, e) in subst (λ x. last_of (take x rows) ≡ some c) same h
  last-drop zero (suc k) m rows c e h = ground (arith, e)
  last-drop (suc j) (suc k) m [] c e h = cc
  last-drop (suc j) (suc k) m (r ∷ rs) c e h =
      last-cons r (take j rs) c (last-drop j k m rs c (omega (arith, e)) h)

  drop-drop : (j k m : ℕ) (rows : List Cursor) → j ≡ k + m → drop j rows ≡ drop m (drop k rows)
  drop-drop j zero m rows e = ap (λ x. drop x rows) (omega (arith, e))
  drop-drop zero (suc k) m rows e = ground (arith, e)
  drop-drop (suc j) (suc k) zero [] e = refl
  drop-drop (suc j) (suc k) (suc m) [] e = refl
  drop-drop (suc j) (suc k) m (r ∷ rs) e = drop-drop j k m rs (omega (arith, e))

  take-more : (n : ℕ) (xs : List Cursor) → take n (take (suc n) xs) ≡ take n xs
  take-more zero xs = refl
  take-more (suc n) [] = refl
  take-more (suc n) (x ∷ xs) = ap (λ ys. x ∷ ys) (take-more n xs)

  take-all : (n : ℕ) (xs : List Cursor) → ltb n (length (take (suc n) xs)) ≡ false → take n xs ≡ xs
  take-all zero [] h = refl
  take-all zero (x ∷ xs) h = ground arith
  take-all (suc n) [] h = refl
  take-all (suc n) (x ∷ xs) h = ap (λ ys. x ∷ ys) (take-all n xs (ground arith))

  last-Some : (x : Cursor) (xs : List Cursor) → (c : Cursor) × (last_of (x ∷ xs) ≡ some c)
  unfolding last_of
  last-Some x [] = (x, refl)
  last-Some x (y ∷ xs) = last-Some y xs

  module _ (limit : ℕ) (rows : List Cursor) (d : Descending rows) where
    -- The query after the cursor fetches from the k-th row on.
    abbrev Starts : ℕ → Option Cursor → Type 0
    Starts k cursor =
        apply_keyset id_before cursor (suc limit) rows ≡ take (suc (suc limit)) (drop k rows)

    next-Starts :
        (k : ℕ) (c : Cursor)
        → last_of (take (suc limit) (drop k rows)) ≡ some c
        → Starts (k + suc limit) (some c)
    unfolding apply_keyset
    next-Starts k c h =
        ap (λ xs. take (suc (suc limit)) xs)
          (keep_past-last (k + suc limit) rows c d
            (last-drop (k + suc limit) k limit rows c refl h))

    page : ℕ → Page
    page k = build_page (take (suc (suc limit)) (drop k rows)) (suc limit)

    page_more :
        (k : ℕ)
        → ltb (suc limit) (length (take (suc (suc limit)) (drop k rows))) ≡ true
        → page k ≡ record {
          items = take (suc limit) (drop k rows);
          next_cursor = last_of (take (suc limit) (drop k rows));
        }
    unfolding build_page page
    page_more k more = rw (more, take-more (suc limit) (drop k rows)) refl

    page_last :
        (k : ℕ)
        → ltb (suc limit) (length (take (suc (suc limit)) (drop k rows))) ≡ false
        → page k ≡ record { items = take (suc limit) (drop k rows); next_cursor = none }
    unfolding build_page page
    page_last k last = rw (last, take-more (suc limit) (drop k rows)) refl

    page-Cursor :
        (rest : List Cursor)
        → ltb (suc limit) (length (take (suc (suc limit)) rest)) ≡ true
        → (c : Cursor) × (last_of (take (suc limit) rest) ≡ some c) × (1 ≤ length rest)
    page-Cursor [] h = ground arith
    page-Cursor (x ∷ xs) h = let (c, e) = last-Some x (take limit xs) in (c, e, omega arith)

    walk-page :
        (n k : ℕ) (cursor : Option Cursor)
        → Starts k cursor
        → walk (suc n) cursor (suc limit) rows
          ≡ go_on (page k).items (page k).next_cursor (λ next. walk n (some next) (suc limit) rows)
    unfolding walk page
    walk-page n k cursor st =
        ap
          (λ xs.
            go_on (build_page xs (suc limit)).items (build_page xs (suc limit)).next_cursor
              (λ next. walk n (some next) (suc limit) rows))
          st

    walk-from :
        (n k : ℕ) (cursor : Option Cursor)
        → Starts k cursor
        → length (drop k rows) < n
        → walk n cursor (suc limit) rows ≡ drop k rows
    unfolding go_on
    walk-from zero k cursor st h = ground arith
    walk-from (suc n) k cursor st h =
        let rest = drop k rows in
        elim (Bool-cases (ltb (suc limit) (length (take (suc (suc limit)) rest)))) [
          | inl more ↦
              let (c, e, some_left) = page-Cursor rest more in
              let behind = drop-drop (k + suc limit) k (suc limit) rows refl in
              let later =
                walk-from n (k + suc limit) (some c) (next-Starts k c e)
                  (omega (arith, ap length behind, length-drop (suc limit) rest, some_left, h)) in
              walk-page n k cursor st
              ∙ rw (page_more k more, e)
                  (ap (λ xs. take (suc limit) rest ++ xs) (later ∙ behind)
                    ∙ take-append-drop (suc limit) rest)
          | inr last ↦
              walk-page n k cursor st ∙ rw (page_last k last) (take-all (suc limit) rest last)
        ]

    -- Let the rows of a query stand newest first under distinct keys. A client that follows the cursors
    -- with a limit of at least one gets every row exactly once and in order, and it has them after at
    -- most one page more than there are rows.
    pub walk_all : walk (suc (length rows)) none (suc limit) rows ≡ rows
    unfolding apply_keyset
    walk_all = walk-from (suc (length rows)) 0 none refl (omega arith)
