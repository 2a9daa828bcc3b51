-- ===== src/Channels/Adapters/History.antt =====
-- The messages that Gmail's history gives: `list_history` of src/hoursx/channels/gmail.py.
use hours_x.Prelude.{
  List, [], ◌∷◌, Bool, true, false, Option, none, some, String, str_eq, ◌==◌, any_of, if◌then◌else◌,
  All, ◌⊎◌, inl, inr, ◌≡◌, refl, sym, ap, ◌∙◌, subst, arith, Bool-cases,
}
use hours_x.Json.{Value, null, ◌>>=◌, get, each, or_else, truthy, empty_object, empty_array}
use hours_x.Channels.Adapters.{ChannelCredentials}
use hours_x.Channels.Adapters.Gmail.{
  Answer, is_own, labels_of, id_of, with_added, all_added, ids_in, history_of, history_after,
  list_history,
}

-- What a dictionary holds as a list, under a key.
abbrev listed : String → Value → Option (List Value)
listed key v = get key empty_array v >>= λ found. each (or_else found empty_array)

-- An addition of a message that has this id, and no label of the agent's own mail.
abbrev pub IsForeign : Value → Value → Type 0
IsForeign id added =
    (message found : Value) × (labels : List Value) × (get "message" empty_object added
      ≡ some message)
    × (get "labelIds" empty_array message ≡ some found)
    × (labels_of (or_else found empty_array) ≡ some labels)
    × (any_of is_own labels ≡ false)
    × (get "id" null message ≡ some id)

abbrev Any : (Value → Type 0) → List Value → Type 0
Any P [] = ⊥
Any P (v ∷ vs) = P v ⊎ Any P vs

abbrev pub Offers : Value → List Value → Type 0
Offers id = Any (λ entry.
    (added : List Value) × (listed "messagesAdded" entry ≡ some added) × Any (IsForeign id) added)

bound :
    {A B : Type 0} (x : Option A) (f : A → Option B) (b : B)
    → x >>= f ≡ some b
    → (a : A) × (x ≡ some a) × (f a ≡ some b)
bound none f b h = cc
bound (some a) f b h = (a, refl, h)

All_map : {P Q : Value → Type 0} (vs : List Value) → ((v : Value) → P v → Q v) → All P vs → All Q vs
All_map [] f h = tt
All_map (v ∷ vs) f (h, hs) = (f v h, All_map vs f hs)

id_of-All :
    (Q : Value → Type 0) (labels : List Value) (id : Value) (rest : List Value)
    → (any_of is_own labels ≡ false → Q id)
    → All Q rest
    → All Q (id_of labels id rest)
id_of-All Q labels id rest q a = elim (Bool-cases (any_of is_own labels)) [
  | inl e ↦ rw e a
  | inr e ↦ elim (Bool-cases (truthy id)) [ inl t ↦ rw (e, t) (q e, a) | inr t ↦ rw (e, t) a ]
]

with_added_lem :
    (P : Value → Type 0) (added : Value) (rest ids : List Value)
    → with_added added rest ≡ some ids
    → All P rest
    → All (λ id. IsForeign id added ⊎ P id) ids
unfolding with_added
with_added_lem P added rest ids h a =
    let (message, e, h1) = bound (get "message" empty_object added) _ ids h in
    let (found, f, h2) = bound (get "labelIds" empty_array message) _ ids h1 in
    let (labels, g, h3) = bound (labels_of (or_else found empty_array)) _ ids h2 in
    let (id, i, h4) = bound (get "id" null message) _ ids h3 in
    let same : id_of labels id rest ≡ ids = cc in
    subst (All (λ id. IsForeign id added ⊎ P id)) same (
      id_of-All (λ id. IsForeign id added ⊎ P id) labels id rest
        (λ own. inl (message, found, labels, e, f, g, own, i)) (All_map rest (λ v p. inr p) a))

regroup : {A B C : Type 0} → A ⊎ (B ⊎ C) → (A ⊎ B) ⊎ C
regroup (inl a) = inl (inl a)
regroup (inr (inl b)) = inl (inr b)
regroup (inr (inr c)) = inr c

all_added_lem :
    (P : Value → Type 0) (added rest ids : List Value)
    → all_added added rest ≡ some ids
    → All P rest
    → All (λ id. Any (IsForeign id) added ⊎ P id) ids
unfolding all_added
all_added_lem P [] rest ids h a =
    let same : rest ≡ ids = cc in subst (All (λ id. ⊥ ⊎ P id)) same (All_map rest (λ v p. inr p) a)
all_added_lem P (v ∷ vs) rest ids h a =
    let (later, e, h1) = bound (all_added vs rest) (with_added v) ids h in
    All_map ids (λ id. regroup)
      (with_added_lem (λ id. Any (IsForeign id) vs ⊎ P id) v later ids h1
        (all_added_lem P vs rest later e a))

offered :
    (id : Value) (added : List Value) (entry : Value) (entries : List Value)
    → listed "messagesAdded" entry ≡ some added
    → Any (IsForeign id) added ⊎ Offers id entries
    → Offers id (entry ∷ entries)
offered id added entry entries e (inl h) = inl (added, e, h)
offered id added entry entries e (inr h) = inr h

ids_in_lem :
    (entries ids : List Value) → ids_in entries ≡ some ids → All (λ id. Offers id entries) ids
unfolding ids_in
ids_in_lem [] ids h = let same : [] ≡ ids = cc in subst (All (λ id. ⊥)) same tt
ids_in_lem (entry ∷ entries) ids h =
    let (rest, e, h1) = bound (ids_in entries) _ ids h in
    let (found, f, h2) = bound (get "messagesAdded" empty_array entry) _ ids h1 in
    let (added, g, h3) = bound (each (or_else found empty_array)) _ ids h2 in
    All_map ids
      (λ id.
        offered id added entry entries (ap (λ o. o >>= λ v. each (or_else v empty_array)) f ∙ g))
      (all_added_lem (λ id. Offers id entries) added rest ids h3 (ids_in_lem entries rest e))

-- The entries of an answer's history.
abbrev pub entries_of : Option Answer → List Value
entries_of none = []
entries_of (some answer) = elim (listed "history" answer.body) [
  | none ↦ []
  | some entries ↦ entries
]

abbrev pub is_ok : Option Answer → Bool
is_ok none = false
is_ok (some answer) = answer.status == 200

-- A position that the service has forgotten.
abbrev pub is_gone : Option Answer → Bool
is_gone none = false
is_gone (some answer) = answer.status == 404

-- What a request for the history gives: the ids are offered by the answer, and unless it is good there are
-- none, and the position is the one before, or "" for one that is forgotten.
abbrev pub Gives : String → Option Answer → List Value → String → Type 0
Gives start answer ids position =
    All (λ id. Offers id (entries_of answer)) ids
    × ((is_ok answer ≡ true) ⊎ ((ids ≡ []) × (position ≡ (if is_gone answer then "" else start))))

none-Gives :
    (start position : String) (answer : Option Answer) (ids : List Value)
    → [] ≡ ids
    → position ≡ (if is_gone answer then "" else start)
    → Gives start answer ids position
none-Gives start position answer ids e h =
    (subst (All (λ id. Offers id (entries_of answer))) e tt, inr (sym e, h))

history_of_lem :
    (repr : Value → String) (start position : String) (answer : Answer) (ids : List Value)
    → history_of repr start answer.body ≡ some (ids, position)
    → All (λ id. Offers id (entries_of (some answer))) ids
history_of_lem repr start position answer ids h =
    let (found, e, h1) = bound (get "history" empty_array answer.body) _ _ h in
    let (entries, f, h2) = bound (each (or_else found empty_array)) _ _ h1 in
    let (given, g, h3) = bound (ids_in entries) _ _ h2 in
    let (last, i, h4) = bound (get "historyId" null answer.body) _ _ h3 in
    let same : given ≡ ids = cc in
    let read : listed "history" answer.body ≡ some entries =
      ap (λ o. o >>= λ v. each (or_else v empty_array)) e ∙ f in
    subst (λ o. All (λ id. Offers id (elim o [ none ↦ [] | some es ↦ es ])) ids) (sym read)
      (subst (All (λ id. Offers id entries)) same (ids_in_lem entries given g))

history_after_lem :
    (repr : Value → String) (start position : String) (answer : Option Answer) (ids : List Value)
    → history_after repr start answer ≡ some (ids, position)
    → Gives start answer ids position
history_after_lem repr start position none ids h =
    let same : position ≡ start = cc in
    let empty : [] ≡ ids = cc in none-Gives start position none ids empty same
history_after_lem repr start position (some answer) ids h =
    elim (Bool-cases (answer.status == 404)) [
      | inl e ↦
          none-Gives start position (some answer) ids (ground (arith, e, h)) (ground (arith, e, h))
      | inr e ↦ elim (Bool-cases (answer.status == 200)) [
        | inl f ↦ (history_of_lem repr start position answer ids (ground (arith, e, f, h)), inl f)
        | inr f ↦
            none-Gives start position (some answer) ids (ground (arith, e, f, h))
              (ground (arith, e, f, h))
      ]
    ]

-- With a token and a position, every id that the history gives is that of a message that an entry of the
-- answer adds and that bears none of the labels of the agent's own mail. Unless the status of the answer is
-- 200 there are none, and the position is "" for the status 404 and the one before for every other failure.
pub list_history_lem :
    (repr : Value → String) (credentials : ChannelCredentials) (start position : String)
    (answer : Option Answer) (ids : List Value)
    → str_eq credentials.token "" ≡ false
    → str_eq start "" ≡ false
    → list_history repr credentials start answer ≡ some (ids, position)
    → Gives start answer ids position
unfolding list_history
list_history_lem repr credentials start position answer ids t p h =
    history_after_lem repr start position answer ids (ground (arith, t, p, h))
