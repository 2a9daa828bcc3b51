-- ===== src/Knowledge/Covers.antt =====
-- The chunks cover the text: `split_text` of src/hoursx/knowledge.py.
use hours_x.Prelude.{
  ℕ, zero, suc, ◌≤◌, ◌<◌, List, [], ◌∷◌, ◌++◌, false, some, leb, length, take, drop, map, keep_if,
  non_empty, ◌≡◌, refl, ap, ◌∙◌, arith, All, length-take, length-drop, take-append-drop,
}
use hours_x.Knowledge.{Text, strip, cut, advance, windows, split_text}
use hours_x.Knowledge.Bounds.{cut-bounds}

module _ {A : Type 0} where
  take-take : (a b : ℕ) (xs : List A) → a ≤ b → take a (take b xs) ≡ take a xs
  take-take zero b xs h = refl
  take-take (suc a) zero xs h = absurd (omega (arith, h))
  take-take (suc a) (suc b) [] h = refl
  take-take (suc a) (suc b) (x ∷ xs) h = rw (take-take a b xs (omega (arith, h)))

module _ (chunk_size overlap : ℕ) where
  -- The windows put together again, each without what the next one repeats.
  unfoldable pub rejoin : List Text → Text
  rejoin [] = []
  rejoin (w ∷ ws) = take (advance chunk_size overlap (length w)) w ++ rejoin ws

  abbrev pub Sized : Text → Type 0
  Sized w = (1 ≤ length w) × (length w ≤ chunk_size)

  module _ (wide : overlap < chunk_size) where
    -- The window of a turn, whose text is not empty.
    window : Text → Text
    window rest = take (cut chunk_size overlap rest) (take chunk_size rest)

    length-window :
        (rest : Text) → 1 ≤ length rest → length (window rest) ≡ cut chunk_size overlap rest
    unfolding window
    length-window rest h =
        let (low, high, inside) = cut-bounds chunk_size overlap rest (omega (arith, wide)) h in
        omega (arith, inside, length-take (cut chunk_size overlap rest) (take chunk_size rest))

    window-Sized : (rest : Text) → 1 ≤ length rest → Sized (window rest)
    window-Sized rest h =
        let (low, high, inside) = cut-bounds chunk_size overlap rest (omega (arith, wide)) h in
        rw (length-window rest h) (low, high)

    advance-bounds :
        (n : ℕ) → 1 ≤ n → (1 ≤ advance chunk_size overlap n) × (advance chunk_size overlap n ≤ n)
    advance-bounds n h = ground arith

    taken_of_window :
        (rest : Text)
        → 1 ≤ length rest
        → take (advance chunk_size overlap (length (window rest))) (window rest)
          ≡ take (advance chunk_size overlap (cut chunk_size overlap rest)) rest
    unfolding window
    taken_of_window rest h =
        let c = cut chunk_size overlap rest in
        let (low, high, inside) = cut-bounds chunk_size overlap rest (omega (arith, wide)) h in
        let (least, most) = advance-bounds c low in
        ap (λ n. take (advance chunk_size overlap n) (window rest)) (length-window rest h)
        ∙ take-take _ c _ most
        ∙ take-take _ chunk_size rest (omega (arith, most, high))

    windows-rejoin :
        (n : ℕ) (rest : Text)
        → length rest ≤ n
        → (rejoin (windows chunk_size overlap n rest) ≡ rest)
          × All Sized (windows chunk_size overlap n rest)
    unfolding windows rejoin window
    windows-rejoin zero [] h = (refl, tt)
    windows-rejoin zero (x ∷ xs) h = absurd (omega (arith, h))
    windows-rejoin (suc n) [] h = (refl, tt)
    windows-rejoin (suc n) (x ∷ xs) h =
        let rest = x ∷ xs in
        let some_left : 1 ≤ length rest = omega arith in
        let c = cut chunk_size overlap rest in
        let (low, high, inside) =
          cut-bounds chunk_size overlap rest (omega (arith, wide)) some_left in
        let (least, most) = advance-bounds c low in
        let a = advance chunk_size overlap c in
        let (joined, sized) =
          windows-rejoin n (drop a rest) (omega (arith, h, least, length-drop a rest)) in
        (
          ap (λ t. t ++ rejoin (windows chunk_size overlap n (drop a rest)))
                (taken_of_window rest some_left)
              ∙ ap (λ t. take a rest ++ t) joined
              ∙ take-append-drop a rest,
          (window-Sized rest some_left, sized),
        )

    -- With an overlap below the size of a chunk, a text splits into the stripped windows, less the blank
    -- ones, and the windows cover the text without its outer space: put together again, each without
    -- what the next one repeats, they are that text. None is empty, none is longer than a chunk.
    pub split_text-Covers :
        (text : Text)
        → (ws : List Text) × (split_text chunk_size overlap text
            ≡ some (keep_if non_empty (map strip ws)))
          × (rejoin ws ≡ strip text)
          × All Sized ws
    unfolding split_text
    split_text-Covers text =
        let (joined, sized) = windows-rejoin (length (strip text)) (strip text) (omega arith) in
        let narrow : leb chunk_size overlap ≡ false = ground (arith, wide) in
        (
          windows chunk_size overlap (length (strip text)) (strip text),
          rw narrow refl,
          joined,
          sized,
        )
