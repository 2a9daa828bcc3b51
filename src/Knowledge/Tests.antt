-- ===== src/Knowledge/Tests.antt =====
-- A text of two sentences in chunks of eight characters, of which three are repeated.
use hours_x.Prelude.{List, [], ◌∷◌, some, ◌≡◌, refl, arith, All, map, keep_if, non_empty}
use hours_x.Prelude.Text.{is_space}
use hours_x.Knowledge.{Text, strip, lstrip, rstrip, split_text, seek, cut, windows, rfind, starts}
use hours_x.Knowledge.Covers.{rejoin, Sized, split_text-Covers}

-- " ab cd. ef\n"
abbrev text : Text
text = 32 ∷ 97 ∷ 98 ∷ 32 ∷ 99 ∷ 100 ∷ 46 ∷ 32 ∷ 101 ∷ 102 ∷ 10 ∷ []

-- "ab cd. e" is cut behind the sentence; three characters are repeated.
split_example :
    split_text 8 3 text
    ≡ some (
        (97 ∷ 98 ∷ 32 ∷ 99 ∷ 100 ∷ 46 ∷ [])
        ∷ (100 ∷ 46 ∷ 32 ∷ 101 ∷ 102 ∷ [])
        ∷ (101 ∷ 102 ∷ [])
        ∷ [])
unfolding split_text windows cut seek rfind starts strip lstrip rstrip is_space
split_example = refl

split_text-Covers_example :
    (ws : List Text) × (split_text 8 3 text ≡ some (keep_if non_empty (map strip ws)))
    × (rejoin 8 3 ws ≡ strip text)
    × All (Sized 8 3) ws
split_text-Covers_example = split_text-Covers 8 3 (omega arith) text

-- "abcd"
abbrev word : Text
word = 97 ∷ 98 ∷ 99 ∷ 100 ∷ []
