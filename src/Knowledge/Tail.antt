-- ===== src/Knowledge/Tail.antt =====
-- The last chunk of a text: `split_text` of src/hoursx/knowledge.py.
use hours_x.Prelude.{
  drop_all, ℕ, zero, suc, ◌-◌, ◌≤◌, ◌<◌, [], ◌∷◌, false, some, ltb, leb, length, take, drop, map,
  keep_if, non_empty, ◌≡◌, refl, ap, ◌∙◌, arith, length-drop, take_all,
}
use hours_x.Knowledge.{Text, strip, cut, advance, windows, split_text}

module _ (chunk_size overlap : ℕ) where
  cut_last : (rest : Text) → length rest ≤ chunk_size → cut chunk_size overlap rest ≡ length rest
  unfolding cut
  cut_last rest h =
      let whole = take_all chunk_size rest h in
      let last : ltb (length (take chunk_size rest)) (length rest) ≡ false =
        ground (arith, whole) in
      rw last (ap length whole)

  last_turn :
      (n : ℕ) (rest : Text)
      → length rest ≤ chunk_size
      → 1 ≤ length rest
      → windows chunk_size overlap (suc n) rest
        ≡ rest ∷ windows chunk_size overlap n (drop (advance chunk_size overlap (length rest)) rest)
  unfolding windows
  last_turn n [] h l = absurd (omega (arith, l))
  last_turn n (x ∷ xs) h l =
      rw
        (
          cut_last (x ∷ xs) h,
          take_all chunk_size (x ∷ xs) h,
          take_all (length (x ∷ xs)) (x ∷ xs) (omega arith),
        )
        refl

  no_turn : (n : ℕ) → windows chunk_size overlap n [] ≡ []
  unfolding windows
  no_turn zero = refl
  no_turn (suc n) = refl

  tail_turns :
      (n : ℕ) (rest : Text)
      → length rest ≤ chunk_size
      → 1 ≤ overlap
      → overlap < length rest
      → windows chunk_size overlap (suc (suc n)) rest
        ≡ rest ∷ drop (length rest - overlap) rest ∷ []
  tail_turns n rest h l m =
      let a : advance chunk_size overlap (length rest) ≡ length rest - overlap = ground arith in
      let tail = drop (length rest - overlap) rest in
      let size : length tail ≡ overlap =
        omega (arith, length-drop (length rest - overlap) rest, m) in
      let stays : advance chunk_size overlap (length tail) ≡ length tail = ground (arith, size) in
      last_turn (suc n) rest h (omega (arith, m))
      ∙ ap (λ k. rest ∷ windows chunk_size overlap (suc n) (drop k rest)) a
      ∙ ap (λ t. rest ∷ t) (last_turn n tail (omega (arith, size, h, m)) (omega (arith, size, l)))
      ∙ ap (λ k. rest ∷ tail ∷ windows chunk_size overlap n (drop k tail)) stays
      ∙ ap (λ t. rest ∷ tail ∷ windows chunk_size overlap n t)
          (drop_all (length tail) tail (omega arith))
      ∙ ap (λ t. rest ∷ tail ∷ t) (no_turn n)

  enough :
      (rest : Text)
      → length rest ≤ chunk_size
      → 1 ≤ overlap
      → overlap < length rest
      → windows chunk_size overlap (length rest) rest
        ≡ rest ∷ drop (length rest - overlap) rest ∷ []
  enough [] h l m = absurd (omega (arith, m))
  enough (x ∷ []) h l m = absurd (omega (arith, m, l))
  enough (x ∷ y ∷ zs) h l m = tail_turns (length zs) (x ∷ y ∷ zs) h l m

  -- A text that fits into one chunk and is longer than the overlap is split in two all the same: the
  -- whole of it, and again its last characters, as many as chunks overlap.
  pub split_text-tail :
      (text : Text)
      → length (strip text) ≤ chunk_size
      → 1 ≤ overlap
      → overlap < length (strip text)
      → split_text chunk_size overlap text
        ≡ some (
            keep_if non_empty
              (map strip (strip text ∷ drop (length (strip text) - overlap) (strip text) ∷ [])))
  unfolding split_text
  split_text-tail text h l m =
      let narrow : leb chunk_size overlap ≡ false = ground (arith, h, m) in
      rw narrow (ap (λ ws. some (keep_if non_empty (map strip ws))) (enough (strip text) h l m))
