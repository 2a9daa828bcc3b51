-- ===== src/Prelude/Text.antt =====
-- What the program uses of Python's `str`: tests on characters, `strip`, `removesuffix`, `split`.
use Prim.Native.Char.{Char, code}
use Prim.Native.Nat.{ℕ, zero, suc, ◌/◌, ◌%◌}
use Prim.Native.String.{String, ◌++◌}
use mathlib.Core.Bool.{Bool, true, false, ◌&&◌, ◌||◌}
use mathlib.Core.List.{List, [], ◌∷◌, ◌++◌ as list_append}
use text.Mathlib.TextLemmas.{nil-append, append-nil, append_assoc}
use mathlib.Core.Option.{Option, none, some}
use mathlib.Core.Path.{◌≡◌, sym, ap, ◌∙◌}
use text.Mathlib.Text.{◌==◌ as str_eq, starts_with}
use hours_x.Prelude.Tests.{leb, ltb, ◌==◌, if◌then◌else◌}

-- `s in {…}` for a literal set of texts.
unfoldable pub is_one_of : String → List String → Bool
is_one_of s [] = false
is_one_of s (t ∷ ts) = str_eq s t || is_one_of s ts

-- `s.startswith((…))`.
unfoldable pub starts_with_any : String → List String → Bool
starts_with_any s [] = false
starts_with_any s (t ∷ ts) = starts_with s t || starts_with_any s ts

abbrev pub between : ℕ → ℕ → ℕ → Bool
between lo hi c = leb lo c && leb c hi

-- The characters that `str.isspace` accepts.
unfoldable pub is_space : ℕ → Bool
is_space c =
    between 9 13 c
    || between 28 32 c
    || c == 133
    || c == 160
    || c == 5760
    || between 8192 8202 c
    || c == 8232
    || c == 8233
    || c == 8239
    || c == 8287
    || c == 12288

lstrip : String → String
lstrip String.[] = ""
lstrip (String.◌∷◌ c s) = if is_space (code c) then lstrip s else String.◌∷◌ c s

rstrip : String → String
rstrip String.[] = ""
rstrip (String.◌∷◌ c s) =
    let r = rstrip s in if str_eq r "" && is_space (code c) then "" else String.◌∷◌ c r

unfoldable pub strip : String → String
unfolding lstrip rstrip is_space
strip s = lstrip (rstrip s)

unfoldable pub removesuffix : String → String → String
removesuffix String.[] suffix = ""
removesuffix (String.◌∷◌ c s) suffix =
    if str_eq (String.◌∷◌ c s) suffix then "" else String.◌∷◌ c (removesuffix s suffix)

unfoldable pub count : String → ℕ
count String.[] = zero
count (String.◌∷◌ c s) = suc (count s)

unfoldable pub all_chars : (ℕ → Bool) → String → Bool
all_chars p String.[] = true
all_chars p (String.◌∷◌ c s) = p (code c) && all_chars p s

-- A final newline, which `$` of a regular expression lets stand, taken off.
unfoldable pub drop_final_newline : String → String
drop_final_newline String.[] = ""
drop_final_newline (String.◌∷◌ c s) =
    if str_eq s "" && (code c == 10) then "" else String.◌∷◌ c (drop_final_newline s)

-- The parts of `s.split(".")`, for a separator given by its code.
abbrev add_char : Char → List String → List String
add_char c [] = String.◌∷◌ c "" ∷ []
add_char c (part ∷ parts) = String.◌∷◌ c part ∷ parts

unfoldable pub split_at : ℕ → String → List String
split_at sep String.[] = "" ∷ []
split_at sep (String.◌∷◌ c s) =
    let rest = split_at sep s in if code c == sep then "" ∷ rest else add_char c rest

-- `needle in s`.
unfoldable pub contains_text : String → String → Bool
contains_text needle String.[] = str_eq needle ""
contains_text needle (String.◌∷◌ c s) =
    starts_with (String.◌∷◌ c s) needle || contains_text needle s

-- What follows a prefix of `s`, if it is one.
unfoldable pub after_prefix : String → String → Option String
after_prefix String.[] s = some s
after_prefix (String.◌∷◌ p ps) String.[] = none
after_prefix (String.◌∷◌ p ps) (String.◌∷◌ c s) =
    let rest = after_prefix ps s in if code p == code c then rest else none

-- `"".join(parts)`.
unfoldable pub concat : List String → String
concat [] = ""
concat (s ∷ ss) = s ++ concat ss

-- `separator.join(…)`.
unfoldable pub join : String → List String → String
join separator [] = ""
join separator (s ∷ []) = s
join separator (s ∷ t ∷ ss) = s ++ (separator ++ join separator (t ∷ ss))

pub concat-append : (ss ts : List String) → concat (list_append ss ts) ≡ concat ss ++ concat ts
unfolding concat
concat-append [] ts = sym (nil-append (concat ts))
concat-append (s ∷ ss) ts =
    ap (λ t. s ++ t) (concat-append ss ts) ∙ sym (append_assoc s (concat ss) (concat ts))

pub append_empty : (s : String) → s ++ "" ≡ s
append_empty = append-nil

-- `str(n)`: the decimal digits, with as much fuel as there can be divisions by ten.
abbrev digits : List String
digits = "0" ∷ "1" ∷ "2" ∷ "3" ∷ "4" ∷ "5" ∷ "6" ∷ "7" ∷ "8" ∷ "9" ∷ []

abbrev nth : List String → ℕ → String
nth [] n = ""
nth (s ∷ ss) zero = s
nth (s ∷ ss) (suc n) = nth ss n

decimal_from : ℕ → ℕ → String
decimal_from zero n = nth digits n
decimal_from (suc fuel) n =
    let higher = decimal_from fuel (n / 10) in
    if ltb n 10 then nth digits n else higher ++ nth digits (n % 10)

unfoldable pub decimal : ℕ → String
unfolding decimal_from
decimal n = decimal_from n n
