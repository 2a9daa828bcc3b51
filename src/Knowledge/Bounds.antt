-- ===== src/Knowledge/Bounds.antt =====
-- Where the windows are cut: `split_text` of src/hoursx/knowledge.py.
use hours_x.Prelude.{
  ℕ, ◌+◌, ◌/◌, ◌≤◌, List, [], ◌∷◌, true, some, ltb, length, take, ◌≡◌, arith, Bool-cases,
  Option-cases, inl, inr, length-take-le, length-take,
}
use hours_x.Knowledge.{Text, starts, rfind, boundaries, seek, cut}

starts-le : (p s : Text) → starts p s ≡ true → length p ≤ length s
unfolding starts
starts-le [] s h = omega arith
starts-le (p ∷ ps) [] h = cc
starts-le (p ∷ ps) (c ∷ cs) h = ground (arith, starts-le ps cs)

pub rfind-le : (p s : Text) (n : ℕ) → rfind p s ≡ some n → n + length p ≤ length s
unfolding rfind
rfind-le p [] n h = ground (arith, starts-le p [])
rfind-le p (c ∷ cs) n h = elim (Option-cases (rfind p cs)) [
  | inl e ↦ ground (arith, starts-le p (c ∷ cs), e)
  | inr (k, e) ↦ ground (arith, rfind-le p cs k e, e)
]

module _ (chunk_size overlap : ℕ) where
  seek-bounds :
      (window : Text) (bs : List Text)
      → 1 ≤ length window
      → (1 ≤ seek chunk_size overlap window bs)
        × (seek chunk_size overlap window bs ≤ length window)
  unfolding seek
  seek-bounds window [] h = (h, omega arith)
  seek-bounds window (b ∷ bs) h = elim (Option-cases (rfind b window)) [
    | inl e ↦ rw (seek, e) (seek-bounds window bs h)
    | inr (pos, e) ↦
        let rest = seek-bounds window bs h in
        let here = rfind-le b window pos e in
        elim (Bool-cases (ltb (chunk_size / 2) pos)) [
          | inl far ↦ rw (seek, e, far) (ground (arith, far), here)
          | inr near ↦ rw (seek, e, near) rest
        ]
  ]

  -- A window that is not empty is cut behind its first character, and within its length.
  pub cut-bounds :
      (rest : Text)
      → 1 ≤ chunk_size
      → 1 ≤ length rest
      → (1 ≤ cut chunk_size overlap rest)
        × (cut chunk_size overlap rest ≤ chunk_size)
        × (cut chunk_size overlap rest ≤ length (take chunk_size rest))
  unfolding cut
  cut-bounds rest c h =
      let window = take chunk_size rest in
      let few = length-take-le chunk_size rest in
      let some_left : 1 ≤ length window = ground (arith, length-take chunk_size rest) in
      let (low, high) = seek-bounds window boundaries some_left in
      ground (arith, low, high, few, some_left)
