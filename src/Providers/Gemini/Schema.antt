-- ===== src/Providers/Gemini/Schema.antt =====
-- The schemas that src/hoursx/providers/gemini.py sends: `_strip_unsupported`.
use hours_x.Prelude.{
  Bool, true, false, Option, none, some, String, if◌then◌else◌, str_eq, eq_iff, ◌≡◌, refl, sym, ap,
  ◌∙◌, arith, Bool-cases, inl, inr,
}
use hours_x.Prelude.Text.{is_one_of}
use hours_x.Json.{
  Value, Items, Fields, null, bool, num, other_num, text, arr, obj, nil, cons, end, field, find,
}
use hours_x.Providers.Gemini.Request.{unsupported, strip_unsupported, strip_items, strip_fields}

-- No dictionary within has a key that the service refuses.
abbrev mutual
  pub Supported : Value → Type 0
  Supported null = Unit
  Supported (bool b) = Unit
  Supported (num n) = Unit
  Supported (other_num s) = Unit
  Supported (text s) = Unit
  Supported (arr vs) = AllSupported vs
  Supported (obj fs) = FieldsSupported fs

  pub AllSupported : Items → Type 0
  AllSupported nil = Unit
  AllSupported (cons v vs) = Supported v × AllSupported vs

  pub FieldsSupported : Fields → Type 0
  FieldsSupported end = Unit
  FieldsSupported (field key v fs) =
      (is_one_of key unsupported ≡ false) × Supported v × FieldsSupported fs

mutual
  unfolding strip_unsupported

  strip_unsupported-Supported : (v : Value) → Supported (strip_unsupported v)
  strip_unsupported-Supported null = tt
  strip_unsupported-Supported (bool b) = tt
  strip_unsupported-Supported (num n) = tt
  strip_unsupported-Supported (other_num s) = tt
  strip_unsupported-Supported (text s) = tt
  strip_unsupported-Supported (arr vs) = strip_items-Supported vs
  strip_unsupported-Supported (obj fs) = strip_fields-Supported fs

  strip_items-Supported : (vs : Items) → AllSupported (strip_items vs)
  strip_items-Supported nil = tt
  strip_items-Supported (cons v vs) = (strip_unsupported-Supported v, strip_items-Supported vs)

  strip_fields-Supported : (fs : Fields) → FieldsSupported (strip_fields fs)
  strip_fields-Supported end = tt
  strip_fields-Supported (field key v fs) = elim (Bool-cases (is_one_of key unsupported)) [
    | inl e ↦ rw e (strip_fields-Supported fs)
    | inr e ↦ rw e (e, strip_unsupported-Supported v, strip_fields-Supported fs)
  ]

mutual
  unfolding strip_unsupported

  strip_same : (v : Value) → Supported v → strip_unsupported v ≡ v
  strip_same null h = refl
  strip_same (bool b) h = refl
  strip_same (num n) h = refl
  strip_same (other_num s) h = refl
  strip_same (text s) h = refl
  strip_same (arr vs) h = ap arr (strip_items_same vs h)
  strip_same (obj fs) h = ap obj (strip_fields_same fs h)

  strip_items_same : (vs : Items) → AllSupported vs → strip_items vs ≡ vs
  strip_items_same nil h = refl
  strip_items_same (cons v vs) (h, hs) = rw (strip_same v h, strip_items_same vs hs)

  strip_fields_same : (fs : Fields) → FieldsSupported fs → strip_fields fs ≡ fs
  strip_fields_same end h = refl
  strip_fields_same (field key v fs) (e, h, hs) = rw (e, strip_same v h, strip_fields_same fs hs)

abbrev stripped : Option Value → Option Value
stripped none = none
stripped (some v) = some (strip_unsupported v)

stripped_if :
    (b : Bool) (v : Value) (o : Option Value)
    → (if b then some (strip_unsupported v) else stripped o) ≡ stripped (if b then some v else o)
stripped_if true v o = refl
stripped_if false v o = refl

-- What a dictionary holds under a key that is kept.
find-strip_fields :
    (key : String) (fs : Fields)
    → is_one_of key unsupported ≡ false
    → find key (strip_fields fs) ≡ stripped (find key fs)
unfolding strip_unsupported find
find-strip_fields key end h = refl
find-strip_fields key (field k v fs) h = elim (Bool-cases (is_one_of k unsupported)) [
  | inl e ↦ elim (Bool-cases (str_eq k key)) [
    | inl g ↦
        let same : k ≡ key = ground (arith, eq_iff k key, g) in
        let clash = sym h ∙ ap (λ s. is_one_of s unsupported) (sym same) ∙ e in cc
    | inr g ↦ rw (e, g) (find-strip_fields key fs h)
  ]
  | inr e ↦ rw e (rw (find-strip_fields key fs h) (stripped_if (str_eq k key) v (find key fs)))
]

-- A refused key is found nowhere, whatever the dictionary held under it.
find-strip_fields_refused :
    (key : String) (fs : Fields)
    → is_one_of key unsupported ≡ true
    → find key (strip_fields fs) ≡ none
unfolding strip_unsupported find
find-strip_fields_refused key end h = refl
find-strip_fields_refused key (field k v fs) h = elim (Bool-cases (is_one_of k unsupported)) [
  | inl e ↦ rw e (find-strip_fields_refused key fs h)
  | inr e ↦ elim (Bool-cases (str_eq k key)) [
    | inl g ↦
        let same : k ≡ key = ground (arith, eq_iff k key, g) in
        let clash = sym e ∙ ap (λ s. is_one_of s unsupported) same ∙ h in cc
    | inr g ↦ rw (e, g) (find-strip_fields_refused key fs h)
  ]
]

-- The schema that is sent has none of the refused keywords at any depth, and stripping it again changes
-- nothing; of a dictionary in it, what stands under any other key stays, itself stripped.
pub strip_unsupported_lem :
    (v : Value) (key : String) (fs : Fields)
    → Supported (strip_unsupported v)
      × (strip_unsupported (strip_unsupported v) ≡ strip_unsupported v)
      × (find key (strip_fields fs)
          ≡ (if is_one_of key unsupported then none else stripped (find key fs)))
strip_unsupported_lem v key fs = (
  strip_unsupported-Supported v,
  strip_same (strip_unsupported v) (strip_unsupported-Supported v),
  elim (Bool-cases (is_one_of key unsupported)) [
    | inl e ↦ rw e (find-strip_fields_refused key fs e)
    | inr e ↦ rw e (find-strip_fields key fs e)
  ],
)
