-- ===== src/Channels/Adapters/Split.antt =====
-- The chunks of a message: `_split` of src/hoursx/channels/telegram.py and of whatsapp.py.
use hours_x.Prelude.{
  ℕ, zero, suc, ◌≤◌, List, [], ◌∷◌, ◌++◌, not, ◌==◌, leb, length, take, drop, keep_if, All,
  length-take, length-take-le, length-drop, take-append-drop, append-nil, ◌≡◌, refl, sym, ap, ◌∙◌,
  arith, Bool-cases, Option-cases, inl, inr,
}
use hours_x.Knowledge.{rfind}
use hours_x.Knowledge.Bounds.{rfind-le}
use hours_x.Channels.Adapters.{Text}
use hours_x.Channels.Adapters.Telegram.{lstrip_newlines, cut, split_loop, split}
use hours_x.Channels.Adapters.Whatsapp.{slices, split as slice_split}

abbrev pub flat : List Text → Text
flat [] = []
flat (t ∷ ts) = t ++ flat ts

-- The text without its newlines.
abbrev pub words : Text → Text
words = keep_if (λ c. not (c == 10))

abbrev pub Fits : ℕ → Text → Type 0
Fits limit chunk = (1 ≤ length chunk) × (length chunk ≤ limit)

words-append : (s t : Text) → words (s ++ t) ≡ words s ++ words t
words-append [] t = refl
words-append (c ∷ cs) t = elim (Bool-cases (c == 10)) [
  | inl e ↦ rw e (words-append cs t)
  | inr e ↦ rw e (ap (λ u. c ∷ u) (words-append cs t))
]

words-lstrip_newlines : (s : Text) → words (lstrip_newlines s) ≡ words s
unfolding lstrip_newlines
words-lstrip_newlines [] = refl
words-lstrip_newlines (c ∷ cs) = elim (Bool-cases (c == 10)) [
  | inl e ↦ rw e (words-lstrip_newlines cs)
  | inr e ↦ rw (e, e)
]

length-lstrip_newlines : (s : Text) → length (lstrip_newlines s) ≤ length s
unfolding lstrip_newlines
length-lstrip_newlines [] = omega arith
length-lstrip_newlines (c ∷ cs) = ground (arith, length-lstrip_newlines cs)

cut-bounds :
    (limit : ℕ) (s : Text)
    → 2 ≤ limit
    → limit ≤ length s
    → (1 ≤ cut limit s) × (cut limit s ≤ limit)
unfolding cut
cut-bounds limit s h g = elim (Option-cases (rfind (10 ∷ []) (take limit s))) [
  | inl e ↦ rw e (omega arith, omega arith)
  | inr (i, e) ↦ ground (arith, e, rfind-le (10 ∷ []) (take limit s) i e, length-take-le limit s)
]

-- Cutting loses newlines only.
words-cut : (n : ℕ) (s : Text) → words (take n s) ++ words (lstrip_newlines (drop n s)) ≡ words s
words-cut n s =
    ap (λ t. words (take n s) ++ t) (words-lstrip_newlines (drop n s))
    ∙ sym (words-append (take n s) (drop n s))
    ∙ ap words (take-append-drop n s)

split_loop_lem :
    (fuel limit : ℕ) (s : Text)
    → 2 ≤ limit
    → length s ≤ fuel
    → All (Fits limit) (split_loop fuel limit s)
      × (words (flat (split_loop fuel limit s)) ≡ words s)
unfolding split_loop
split_loop_lem zero limit [] h g = (tt, refl)
split_loop_lem zero limit (c ∷ cs) h g = absurd (omega (arith, g))
split_loop_lem (suc fuel) limit [] h g = (tt, refl)
split_loop_lem (suc fuel) limit (c ∷ cs) h g = elim (Bool-cases (leb (length (c ∷ cs)) limit)) [
  | inl e ↦ rw e (((omega arith, ground (arith, e)), tt), ap words (append-nil (c ∷ cs)))
  | inr e ↦ rw e (
      let n = cut limit (c ∷ cs) in
      let (low, high) = cut-bounds limit (c ∷ cs) h (ground (arith, e)) in
      let (fits, same) =
        split_loop_lem fuel limit (lstrip_newlines (drop n (c ∷ cs))) h (
          omega
            (arith, length-lstrip_newlines (drop n (c ∷ cs)), length-drop n (c ∷ cs), low, g)) in
      (
        (
          (
            ground (arith, length-take n (c ∷ cs), e),
            omega (arith, length-take-le n (c ∷ cs), high),
          ),
          fits,
        ),
        words-append (take n (c ∷ cs))
              (flat (split_loop fuel limit (lstrip_newlines (drop n (c ∷ cs)))))
            ∙ ap (λ t. words (take n (c ∷ cs)) ++ t) same
            ∙ words-cut n (c ∷ cs),
      ))
]

split-Fits :
    (limit c : ℕ) (cs : Text)
    → 2 ≤ limit
    → All (Fits limit) (split (c ∷ cs) limit)
      × (words (flat (split (c ∷ cs) limit)) ≡ words (c ∷ cs))
unfolding split
split-Fits limit c cs h = elim (Bool-cases (leb (length (c ∷ cs)) limit)) [
  | inl e ↦ rw e (((omega arith, ground (arith, e)), tt), ap words (append-nil (c ∷ cs)))
  | inr e ↦ rw e (split_loop_lem (length (c ∷ cs)) limit (c ∷ cs) h (omega arith))
]

slices_lem :
    (fuel limit : ℕ) (s : Text)
    → 1 ≤ limit
    → length s ≤ fuel
    → All (Fits limit) (slices fuel limit s) × (flat (slices fuel limit s) ≡ s)
unfolding slices
slices_lem zero limit [] h g = (tt, refl)
slices_lem zero limit (c ∷ cs) h g = absurd (omega (arith, g))
slices_lem (suc fuel) limit [] h g = (tt, refl)
slices_lem (suc fuel) limit (c ∷ cs) h g =
    let (fits, same) =
      slices_lem fuel limit (drop limit (c ∷ cs)) h
        (omega (arith, length-drop limit (c ∷ cs), g, h)) in
    (
      ((ground (arith, length-take limit (c ∷ cs)), length-take-le limit (c ∷ cs)), fits),
      ap (λ t. take limit (c ∷ cs) ++ t) same ∙ take-append-drop limit (c ∷ cs),
    )

flat-split :
    (limit c : ℕ) (cs : Text)
    → 1 ≤ limit
    → All (Fits limit) (slice_split (c ∷ cs) limit) × (flat (slice_split (c ∷ cs) limit) ≡ c ∷ cs)
unfolding slice_split
flat-split limit c cs h = elim (Bool-cases (leb (length (c ∷ cs)) limit)) [
  | inl e ↦ rw e (((omega arith, ground (arith, e)), tt), append-nil (c ∷ cs))
  | inr e ↦ rw e (slices_lem (length (c ∷ cs)) limit (c ∷ cs) h (omega arith))
]

-- A text that is not empty is split into chunks of which none is empty or longer than the limit; one after the
-- other they are the text for WhatsApp, and the text but for newlines for Telegram, with a limit of 2 or more.
pub split_lem :
    (limit c : ℕ) (cs : Text)
    → 2 ≤ limit
    → All (Fits limit) (split (c ∷ cs) limit)
      × (words (flat (split (c ∷ cs) limit)) ≡ words (c ∷ cs))
      × All (Fits limit) (slice_split (c ∷ cs) limit)
      × (flat (slice_split (c ∷ cs) limit) ≡ c ∷ cs)
split_lem limit c cs h =
    let (lines_fit, lines_same) = split-Fits limit c cs h in
    let (slices_fit, slices_same) = flat-split limit c cs (omega (arith, h)) in
    (lines_fit, lines_same, slices_fit, slices_same)
