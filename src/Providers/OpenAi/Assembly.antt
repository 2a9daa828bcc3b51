-- ===== src/Providers/OpenAi/Assembly.antt =====
-- How src/hoursx/providers/openai_compat.py assembles the calls of a stream from their fragments.
use hours_x.Prelude.{
  ℕ, ◌<◌, List, [], ◌∷◌, false, Option, none, some, if◌then◌else◌, ◌==◌, ltb, keep_if, All, ◌≡◌,
  refl, ap, ◌∙◌, arith, Bool-cases, inl, inr,
}
use hours_x.Providers.OpenAi.{
  Slot, Slots, empty_slot, Fragment, add_fragment, update, merge, insert_sorted, sorted,
}

abbrev pub slot_at : ℕ → Slots → Option Slot
slot_at i [] = none
slot_at i ((j, slot) ∷ slots) = if j == i then some slot else slot_at i slots

abbrev or_empty : Option Slot → Slot
or_empty none = empty_slot
or_empty (some slot) = slot

-- What the fragments of one call assemble.
abbrev pub gathered : Option Slot → List Fragment → Option Slot
gathered slot [] = slot
gathered slot (f ∷ fs) = gathered (some (add_fragment f (or_empty slot))) fs

abbrev pub of_call : ℕ → List Fragment → List Fragment
of_call i = keep_if (λ (f : Fragment). f.index == i)

slot_at-update :
    (i j : ℕ) (f : Slot → Slot) (slots : Slots)
    → slot_at i (update j f slots)
      ≡ (if j == i then some (f (or_empty (slot_at i slots))) else slot_at i slots)
unfolding update
slot_at-update i j f [] = refl
slot_at-update i j f ((k, slot) ∷ slots) = ground (arith, slot_at-update i j f slots)

slot_at-merge :
    (i : ℕ) (fs : List Fragment) (slots : Slots)
    → slot_at i (merge fs slots) ≡ gathered (slot_at i slots) (of_call i fs)
unfolding merge
slot_at-merge i [] slots = refl
slot_at-merge i (f ∷ fs) slots = elim (Bool-cases (f.index == i)) [
  | inl e ↦
      slot_at-merge i fs (update f.index (add_fragment f) slots)
      ∙ rw (slot_at-update i f.index (add_fragment f) slots, e)
  | inr e ↦
      slot_at-merge i fs (update f.index (add_fragment f) slots)
      ∙ rw (slot_at-update i f.index (add_fragment f) slots, e)
]

abbrev Fresh : ℕ → Slots → Type 0
Fresh i = All (λ (e : ℕ × Slot). (e.0 == i) ≡ false)

abbrev Unique : Slots → Type 0
Unique [] = Unit
Unique (e ∷ es) = Fresh e.0 es × Unique es

-- Every index is above the ones before.
abbrev pub Above : ℕ → Slots → Type 0
Above i = All (λ (e : ℕ × Slot). i < e.0)

abbrev pub Ascending : Slots → Type 0
Ascending [] = Unit
Ascending (e ∷ es) = Above e.0 es × Ascending es

update-Fresh :
    (i j : ℕ) (f : Slot → Slot) (slots : Slots)
    → (j == i) ≡ false
    → Fresh i slots
    → Fresh i (update j f slots)
unfolding update
update-Fresh i j f [] e h = (e, tt)
update-Fresh i j f ((k, slot) ∷ slots) e (h, hs) = elim (Bool-cases (k == j)) [
  | inl g ↦ rw g (h, hs)
  | inr g ↦ rw g (h, update-Fresh i j f slots e hs)
]

update-Unique : (j : ℕ) (f : Slot → Slot) (slots : Slots) → Unique slots → Unique (update j f slots)
unfolding update
update-Unique j f [] u = (tt, tt)
update-Unique j f ((k, slot) ∷ slots) (h, u) = elim (Bool-cases (k == j)) [
  | inl g ↦ rw g (h, u)
  | inr g ↦ rw g (update-Fresh k j f slots (ground arith) h, update-Unique j f slots u)
]

merge-Unique : (fs : List Fragment) (slots : Slots) → Unique slots → Unique (merge fs slots)
unfolding merge
merge-Unique [] slots u = u
merge-Unique (f ∷ fs) slots u =
    merge-Unique fs (update f.index (add_fragment f) slots)
      (update-Unique f.index (add_fragment f) slots u)

Above-trans : (i j : ℕ) (es : Slots) → i < j → Above j es → Above i es
Above-trans i j [] h a = tt
Above-trans i j (e ∷ es) h (a, above) = (omega arith, Above-trans i j es h above)

insert_sorted-Above :
    (i : ℕ) (e : ℕ × Slot) (es : Slots) → i < e.0 → Above i es → Above i (insert_sorted e es)
unfolding insert_sorted
insert_sorted-Above i e [] h a = (h, tt)
insert_sorted-Above i e (d ∷ ds) h (a, above) = elim (Bool-cases (ltb e.0 d.0)) [
  | inl g ↦ rw g (h, (a, above))
  | inr g ↦ rw g (a, insert_sorted-Above i e ds h above)
]

insert_sorted-Ascending :
    (e : ℕ × Slot) (es : Slots) → Fresh e.0 es → Ascending es → Ascending (insert_sorted e es)
unfolding insert_sorted
insert_sorted-Ascending e [] h a = (tt, tt)
insert_sorted-Ascending e (d ∷ ds) (h, hs) (a, above) = elim (Bool-cases (ltb e.0 d.0)) [
  | inl g ↦ rw g ((ground arith, Above-trans e.0 d.0 ds (ground arith) a), (a, above))
  | inr g ↦
      rw g (insert_sorted-Above d.0 e ds (ground arith) a, insert_sorted-Ascending e ds hs above)
]

slot_at-insert_sorted :
    (i : ℕ) (e : ℕ × Slot) (es : Slots)
    → Fresh e.0 es
    → slot_at i (insert_sorted e es) ≡ slot_at i (e ∷ es)
unfolding insert_sorted
slot_at-insert_sorted i e [] h = refl
slot_at-insert_sorted i e (d ∷ ds) (h, hs) = ground (arith, slot_at-insert_sorted i e ds hs)

insert_sorted-Fresh :
    (i : ℕ) (e : ℕ × Slot) (es : Slots)
    → (e.0 == i) ≡ false
    → Fresh i es
    → Fresh i (insert_sorted e es)
unfolding insert_sorted
insert_sorted-Fresh i e [] h fresh = (h, tt)
insert_sorted-Fresh i e (d ∷ ds) h (f, fresh) = elim (Bool-cases (ltb e.0 d.0)) [
  | inl g ↦ rw g (h, (f, fresh))
  | inr g ↦ rw g (f, insert_sorted-Fresh i e ds h fresh)
]

sorted-Fresh : (i : ℕ) (es : Slots) → Fresh i es → Fresh i (sorted es)
unfolding sorted
sorted-Fresh i [] fresh = tt
sorted-Fresh i (e ∷ es) (f, fresh) = insert_sorted-Fresh i e (sorted es) f (sorted-Fresh i es fresh)

sorted-Ascending : (es : Slots) → Unique es → Ascending (sorted es)
unfolding sorted
sorted-Ascending [] u = tt
sorted-Ascending (e ∷ es) (f, u) =
    insert_sorted-Ascending e (sorted es) (sorted-Fresh e.0 es f) (sorted-Ascending es u)

slot_at-sorted : (i : ℕ) (es : Slots) → Unique es → slot_at i (sorted es) ≡ slot_at i es
unfolding sorted
slot_at-sorted i [] u = refl
slot_at-sorted i (e ∷ es) (f, u) =
    slot_at-insert_sorted i e (sorted es) (sorted-Fresh e.0 es f)
    ∙ ap (λ o. if e.0 == i then some e.1 else o) (slot_at-sorted i es u)

-- Whatever the order in which the fragments of a stream's calls arrive, the slots that its calls are made from
-- stand in ascending order of their indexes, and the slot of an index holds what the fragments of that index
-- assemble, in the order in which they came; there is none where no fragment has the index.
pub sorted-merge :
    (fs : List Fragment)
    → Ascending (sorted (merge fs []))
      × ((i : ℕ) → slot_at i (sorted (merge fs [])) ≡ gathered none (of_call i fs))
sorted-merge fs =
    let unique = merge-Unique fs [] tt in
    (
      sorted-Ascending (merge fs []) unique,
      λ i. slot_at-sorted i (merge fs []) unique ∙ slot_at-merge i fs [],
    )
