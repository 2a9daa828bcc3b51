-- ===== src/Routing/Streams.antt =====
-- `stream` and `note_stream_outcome` of src/hoursx/providers/router.py.
use hours_x.Prelude.{
  ℕ, ◌≡◌, ◌≢◌, refl, ap, ◌∙◌, inl, inr, List, [], ◌∷◌, true, false, Option, none, some, String,
  arith, str_eq, eq_iff, Bool-cases, Option-cases,
}
use hours_x.Prelude.Dict.{lookup, insert, lookup-insert, lookup-insert_self}
use hours_x.Resilience.{CircuitBreaker, allows_call, record_success}
use hours_x.Resilience.Breaker.{refuses_inside}
use hours_x.Routing.{
  ModelRouter, get_default, resolve, chain, set_breaker, stream_chain, stream, note_stream_outcome,
}
use hours_x.Routing.Fallback.{IsOpenAt}

keeps_open : (b : CircuitBreaker) (now : ℕ) → IsOpenAt b now → allows_call b now ≡ (false, b)
keeps_open b now (opened, o, h) = refuses_inside b opened now o h

-- The settings that resolve a name, apart from the breakers.
abbrev SameSettings : ModelRouter → ModelRouter → Type 0
SameSettings r s = (r.providers ≡ s.providers) × (r.aliases ≡ s.aliases)

module _ (p : String) (b : CircuitBreaker) (now : ℕ) (is_open : IsOpenAt b now) where
  -- A walk for a stream keeps the settings and the open breaker of `p`, and does not pick `p`.
  abbrev Avoids : ModelRouter → Option (String × String) × ModelRouter → Type 0
  Avoids r result =
      SameSettings result.1 r
      × (lookup p result.1.breakers ≡ some b)
      × ((q m : String) → result.0 ≡ some (q, m) → q ≢ p)

  not_open :
      (r : ModelRouter) (name : String) (c : CircuitBreaker)
      → lookup p r.breakers ≡ some b
      → lookup name r.breakers ≡ some c
      → (allows_call c now).0 ≡ true
      → name ≢ p
  not_open r name c lp ln allowed e =
      ground (arith, keeps_open b now is_open, ap (λ n. lookup n r.breakers) e)

  kept :
      (r : ModelRouter) (name : String) (c : CircuitBreaker)
      → lookup p r.breakers ≡ some b
      → lookup name r.breakers ≡ some c
      → lookup p (insert name (allows_call c now).1 r.breakers) ≡ some b
  kept r name c lp ln = elim (Bool-cases (str_eq name p)) [
    | inl same ↦
        rw (lookup-insert name p (allows_call c now).1 r.breakers, same)
          (ground (
            arith,
            keeps_open b now is_open,
            ap (λ n. lookup n r.breakers) ((eq_iff name p).0 same),
          ))
    | inr other ↦ rw (lookup-insert name p (allows_call c now).1 r.breakers, other) lp
  ]

  absent :
      (r : ModelRouter) (name : String)
      → lookup p r.breakers ≡ some b
      → lookup name r.breakers ≡ none
      → name ≢ p
  absent r name lp ln e = cc (ap (λ n. lookup n r.breakers) e)

  stream_chain-Avoids :
      (r : ModelRouter) (refs : List String)
      → lookup p r.breakers ≡ some b
      → Avoids r (stream_chain r now refs)
  unfolding stream_chain
  stream_chain-Avoids r [] lp = ((refl, refl), lp, λ q m e. cc)
  stream_chain-Avoids r (ref ∷ refs) lp = elim (Option-cases (resolve r ref)) [
    | inl e ↦ rw (e, stream_chain) (stream_chain-Avoids r refs lp)
    | inr ((name, model), e) ↦
        rw (e, stream_chain)
          (elim (Option-cases (lookup name r.breakers)) [
            | inl l ↦ rw l ((refl, refl), lp, λ q m h. ground (arith, absent r name lp l))
            | inr (c, l) ↦ rw l (elim (Bool-cases (allows_call c now).0) [
              | inl allowed ↦ rw allowed (
                (refl, refl),
                kept r name c lp l,
                λ q m h. ground (arith, not_open r name c lp l allowed),
              )
              | inr refused ↦ rw refused (
                  stream_chain-Avoids (set_breaker r name (some (allows_call c now).1)) refs
                    (kept r name c lp l))
            ])
          ])
  ]

resolve-SameSettings :
    (r s : ModelRouter) (x : String) → SameSettings r s → resolve r x ≡ resolve s x
unfolding resolve
resolve-SameSettings r s x (sp, sa) = λ i. resolve (record r { providers = sp i; aliases = sa i }) x

-- While the circuit of an alias's primary provider is open, a stream for the alias is served by some
-- other provider. When that stream is reported as a success, under the same alias, it is the
-- primary's circuit that closes, with its failures forgotten, although the primary was not called;
-- the breaker of every other provider, the serving one among them, hears nothing.
pub stream_credits_primary :
    (r : ModelRouter) (now later : ℕ) (ref_or_alias p m : String) (b : CircuitBreaker)
    → resolve r (get_default r.aliases ref_or_alias) ≡ some (p, m)
    → lookup p r.breakers ≡ some b
    → IsOpenAt b now
    → let streamed = stream r now ref_or_alias in
      let noted = note_stream_outcome streamed.1 later ref_or_alias true in
      ((q n : String) → streamed.0 ≡ some (q, n) → q ≢ p)
      × (lookup p noted.breakers ≡ some (record_success b))
      × ((q : String) → q ≢ p → lookup q noted.breakers ≡ lookup q streamed.1.breakers)
unfolding stream note_stream_outcome
stream_credits_primary r now later alias p m b e l is_open =
    let (same, kept_open, picks) = stream_chain-Avoids p b now is_open r (chain r alias) l in
    let again : resolve (stream_chain r now (chain r alias)).1
          (get_default (stream_chain r now (chain r alias)).1.aliases alias)
        ≡ some (p, m) =
      rw same.1 (resolve-SameSettings _ r _ same ∙ e) in
    (
      picks,
      rw (again, note_stream_outcome) (rw kept_open (lookup-insert_self p (record_success b) _)),
      λ q other.
          rw (again, note_stream_outcome)
            (rw kept_open (
              ground (
                arith,
                lookup-insert p q (record_success b)
                    (stream_chain r now (chain r alias)).1.breakers,
                eq_iff p q,
              ))),
    )
