-- ===== src/Knowledge.antt =====
-- The chunks of a document: `split_text` of src/hoursx/knowledge.py, and `_embed_all`. A text is the
-- sequence of its code points; the search is left out.
pub mod Bounds
pub mod Covers
pub mod Tail
mod Tests
use hours_x.Prelude.{
  ℕ, zero, suc, ◌+◌, ◌-◌, ◌/◌, List, [], ◌∷◌, ◌++◌, Bool, true, false, ◌&&◌, Option, none, some,
  if◌then◌else◌, ltb, leb, ◌==◌, length, take, drop, map, keep_if, non_empty,
}
use hours_x.Prelude.Text.{is_space}

abbrev pub Text : Type 0
Text = List ℕ

unfoldable pub lstrip : Text → Text
lstrip [] = []
lstrip (c ∷ cs) = if is_space c then lstrip cs else c ∷ cs

unfoldable pub rstrip : Text → Text
rstrip [] = []
rstrip (c ∷ cs) =
    let r = rstrip cs in if non_empty r then c ∷ r else if is_space c then [] else c ∷ []

unfoldable pub strip : Text → Text
strip s = lstrip (rstrip s)

unfoldable pub starts : Text → Text → Bool
starts [] s = true
starts (p ∷ ps) [] = false
starts (p ∷ ps) (c ∷ cs) = p == c && starts ps cs

-- `s.rfind(pattern)`; `none` is -1.
unfoldable pub rfind : Text → Text → Option ℕ
rfind pattern [] = if starts pattern [] then some 0 else none
rfind pattern (c ∷ cs) = elim (rfind pattern cs) [
  | some n ↦ some (suc n)
  | none ↦ if starts pattern (c ∷ cs) then some 0 else none
]

-- A blank line, the end of a sentence, the end of a line.
abbrev pub boundaries : List Text
boundaries = (10 ∷ 10 ∷ []) ∷ (46 ∷ 32 ∷ []) ∷ (10 ∷ []) ∷ []

module _ (chunk_size overlap : ℕ) where
  unfoldable pub seek : Text → List Text → ℕ
  seek window [] = length window
  seek window (b ∷ bs) = elim (rfind b window) [
    | none ↦ seek window bs
    | some pos ↦ if ltb (chunk_size / 2) pos then pos + length b else seek window bs
  ]

  -- Where the window at the start of `rest` is cut; `rest` is the text from `start` on.
  unfoldable pub cut : Text → ℕ
  cut rest =
      let window = take chunk_size rest in
      if ltb (length window) (length rest) then seek window boundaries else length window

  -- How far `start` moves.
  abbrev pub advance : ℕ → ℕ
  advance n = if ltb overlap n then n - overlap else n

  -- The turns of the loop: the cut windows.
  unfoldable pub windows : ℕ → Text → List Text
  windows zero rest = []
  windows (suc n) rest =
      let more = windows n (drop (advance (cut rest)) rest) in
      if non_empty rest then take (cut rest) (take chunk_size rest) ∷ more else []

  -- `none` is the `ValueError`. Each turn moves on by one character at least, so the length is enough.
  unfoldable pub split_text : Text → Option (List Text)
  split_text text =
      if leb chunk_size overlap
      then none
      else some (keep_if non_empty (map strip (windows (length (strip text)) (strip text))))

-- `embed` is the router's call to a model, one request for each batch.
module _ {V : Type 0} (embed : List Text → List V) where
  batches : ℕ → List Text → List V
  batches zero pieces = []
  batches (suc n) pieces =
      let more = batches n (drop 64 pieces) in
      if non_empty pieces then embed (take 64 pieces) ++ more else []

  unfoldable pub embed_all : List Text → List V
  unfolding batches
  embed_all pieces = batches (length pieces) pieces
