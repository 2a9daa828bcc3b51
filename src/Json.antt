-- ===== src/Json.antt =====
-- Python's values of decoded JSON and the operations on them that the wire formats of
-- src/hoursx/providers and src/hoursx/channels use. `none` is an exception. A number that is no natural
-- one is kept as a text, which nothing here reads.
use Prim.Native.String.{◌++◌}
use hours_x.Prelude.{
  ℕ, List, [], ◌∷◌, Bool, true, false, not, ◌==◌, Option, none, some, String, if◌then◌else◌, str_eq,
}

mutual
  pub data Value : Type 0 where
    null : Value
    bool : Bool → Value
    num : ℕ → Value
    other_num : String → Value
    text : String → Value
    obj : Fields → Value
    arr : Items → Value

  pub data Fields : Type 0 where
    field : String → Value → Fields → Fields
    end : Fields

  pub data Items : Type 0 where
    cons : Value → Items → Items
    nil : Items

infixl 5 ◌>>=◌
abbrev pub ◌>>=◌ : {A B : Type 0} → Option A → (A → Option B) → Option B
none >>= f = none
some a >>= f = f a

unfoldable pub find : String → Fields → Option Value
find key end = none
find key (field k v fs) = if str_eq k key then some v else find key fs

abbrev pub or_default : Value → Option Value → Value
or_default default none = default
or_default default (some v) = v

-- `v.get(key, default)`; only a dictionary has the method.
abbrev pub get : String → Value → Value → Option Value
get key default (obj fs) = some (or_default default (find key fs))
get key default v = none

-- `v[key]` with a text.
abbrev pub item : String → Value → Option Value
item key (obj fs) = find key fs
item key v = none

-- The truth of a value; an opaque number is not zero.
abbrev pub truthy : Value → Bool
truthy null = false
truthy (bool b) = b
truthy (num n) = not (n == 0)
truthy (other_num s) = true
truthy (text s) = not (str_eq s "")
truthy (arr nil) = false
truthy (arr (cons v vs)) = true
truthy (obj end) = false
truthy (obj (field k v fs)) = true

-- `v or default`.
abbrev pub or_else : Value → Value → Value
or_else v default = if truthy v then v else default

abbrev pub to_list : Items → List Value
to_list nil = []
to_list (cons v vs) = v ∷ to_list vs

abbrev pub of_list : List Value → Items
of_list [] = nil
of_list (v ∷ vs) = cons v (of_list vs)

-- What a loop runs through whose body asks every element for a key: the characters of a text and the keys
-- of a dictionary are texts, which have none.
abbrev pub each : Value → Option (List Value)
each (arr vs) = some (to_list vs)
each (text s) = if str_eq s "" then some [] else none
each (obj end) = some []
each v = none

-- `v[0]`, whose result is asked for a key.
abbrev pub first : Value → Option Value
first (arr (cons v vs)) = some v
first v = none

abbrev pub as_text : Value → Option String
as_text (text s) = some s
as_text v = none

-- `v == s` for a text.
abbrev pub is_text : String → Value → Bool
is_text s (text t) = str_eq t s
is_text s v = false

-- `key in v` for a dictionary.
abbrev pub is_present : Option Value → Bool
is_present none = false
is_present (some v) = true

abbrev pub empty_object : Value
empty_object = obj end

abbrev pub empty_array : Value
empty_array = arr nil

-- A dictionary, written out.
abbrev pub fields_of : List (String × Value) → Fields
fields_of [] = end
fields_of ((k, v) ∷ rest) = field k v (fields_of rest)

abbrev pub dict : List (String × Value) → Value
dict entries = obj (fields_of entries)

abbrev pub list : List Value → Value
list vs = arr (of_list vs)

-- `key in v`; of other values than dictionaries it is not asked.
abbrev pub has_key : String → Value → Option Bool
has_key key (obj fs) = some (is_present (find key fs))
has_key key v = none

-- What the validation of a field that is a dictionary, a text or a count lets through; pydantic's
-- conversions of other values are left out.
abbrev pub as_dict : Value → Option Value
as_dict (obj fs) = some (obj fs)
as_dict v = none

abbrev pub as_count : Value → Option ℕ
as_count (num n) = some n
as_count v = none

-- `"".join(vs)`.
unfoldable pub join_texts : List Value → Option String
join_texts [] = some ""
join_texts (v ∷ vs) = do s ← as_text v; rest ← join_texts vs; some (s ++ rest)
