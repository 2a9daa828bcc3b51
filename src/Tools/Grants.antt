-- ===== src/Tools/Grants.antt =====
-- The tools that a model is shown are the ones that it can call: src/hoursx/tools/registry.py.
use hours_x.Prelude.{
  List, [], ◌∷◌, Bool, ◌&&◌, ◌||◌, none, some, String, any_of, if◌then◌else◌, ◌≡◌, refl, ◌∙◌, arith,
  All, ap, sym, inl, inr, Option-cases, str_eq, eq_iff,
}
use hours_x.Prelude.Dict.{lookup, insert, lookup-insert}
use hours_x.Prelude.Text.{is_one_of}
use hours_x.Tools.{
  Tool, Registry, is_registered, register, is_granted, place, sorted, keep_granted, granted,
}

module _ (Context : Type 0) (fnmatch : String → String → Bool) where
  -- Every tool stands under its own name.
  abbrev pub NamedByKey : Registry Context fnmatch → Type 0
  NamedByKey r = All (λ (item : String × Tool Context). item.1.name ≡ item.0) r

  abbrev pub tool_names : List (Tool Context) → List String
  tool_names [] = []
  tool_names (tool ∷ tools) = tool.name ∷ tool_names tools

  abbrev keys : Registry Context fnmatch → List String
  keys [] = []
  keys ((name, tool) ∷ r) = name ∷ keys r

  is_key :
      (name : String) (r : Registry Context fnmatch)
      → is_registered Context fnmatch (lookup name r) ≡ is_one_of name (keys r)
  unfolding lookup is_one_of is_registered
  is_key name [] = refl
  is_key name ((key, tool) ∷ r) = ground (arith, is_key name r, eq_iff key name, eq_iff name key)

  place-key :
      (name : String) (x : String × Tool Context) (r : Registry Context fnmatch)
      → is_one_of name (keys (place Context fnmatch x r))
        ≡ (str_eq name x.0 || is_one_of name (keys r))
  unfolding place is_one_of
  place-key name x [] = refl
  place-key name x ((key, tool) ∷ r) = ground (arith, place-key name x r)

  sorted-key :
      (name : String) (r : Registry Context fnmatch)
      → is_one_of name (keys (sorted Context fnmatch r)) ≡ is_one_of name (keys r)
  unfolding sorted is_one_of
  sorted-key name [] = refl
  sorted-key name ((key, tool) ∷ r) =
      ground (arith, sorted-key name r, place-key name (key, tool) (sorted Context fnmatch r))

  place-NamedByKey :
      (x : String × Tool Context) (r : Registry Context fnmatch)
      → x.1.name ≡ x.0
      → NamedByKey r
      → NamedByKey (place Context fnmatch x r)
  unfolding place
  place-NamedByKey x [] e h = (e, tt)
  place-NamedByKey x (y ∷ r) e h = ground (arith, place-NamedByKey x r e h.1)

  sorted-NamedByKey :
      (r : Registry Context fnmatch) → NamedByKey r → NamedByKey (sorted Context fnmatch r)
  unfolding sorted
  sorted-NamedByKey [] h = tt
  sorted-NamedByKey (x ∷ r) h = place-NamedByKey x _ h.0 (sorted-NamedByKey r h.1)

  kept-key :
      (name : String) (grants : List String) (r : Registry Context fnmatch)
      → NamedByKey r
      → is_one_of name (tool_names (keep_granted Context fnmatch grants r))
        ≡ (is_one_of name (keys r) && any_of (fnmatch name) grants)
  unfolding keep_granted is_one_of
  kept-key name grants [] h = refl
  kept-key name grants ((key, tool) ∷ r) h =
      ground (arith, kept-key name grants r h.1, eq_iff name key, h.0)

  -- In a registry of tools under their own names, the model is shown a tool exactly when it may call
  -- it.
  pub granted_iff :
      (r : Registry Context fnmatch) (grants : List String) (name : String)
      → NamedByKey r
      → is_one_of name (tool_names (granted Context fnmatch r grants))
        ≡ is_granted Context fnmatch r name grants
  unfolding granted is_granted
  granted_iff r grants name h =
      kept-key name grants (sorted Context fnmatch r) (sorted-NamedByKey r h)
      ∙ ap (λ b. b && any_of (fnmatch name) grants) (sorted-key name r ∙ sym (is_key name r))

  insert-NamedByKey :
      (tool : Tool Context) (r : Registry Context fnmatch)
      → NamedByKey r
      → NamedByKey (insert tool.name tool r)
  unfolding insert
  insert-NamedByKey tool [] h = (refl, tt)
  insert-NamedByKey tool ((key, x) ∷ r) h = ground (arith, insert-NamedByKey tool r h.1)

  -- Registering a tool keeps every tool under its own name and adds this one under a name that was
  -- free: that name resolves to it from then on, and every other name as before.
  pub register_adds :
      (r s : Registry Context fnmatch) (tool : Tool Context)
      → NamedByKey r
      → register Context fnmatch r tool ≡ some s
      → NamedByKey s
        × (lookup tool.name r ≡ none)
        × ((name : String)
            → lookup name s ≡ (if str_eq tool.name name then some tool else lookup name r))
  unfolding register is_registered
  register_adds r s tool h e = elim (Option-cases (lookup tool.name r)) [
    | inl free ↦
        let same : s ≡ insert tool.name tool r = ground arith in
        rw same (insert-NamedByKey tool r h, free, λ name. lookup-insert tool.name name tool r)
    | inr (x, taken) ↦ ground arith
  ]
