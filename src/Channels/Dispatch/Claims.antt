-- ===== src/Channels/Dispatch/Claims.antt =====
-- What the claim of a delivery excludes, and what it does not (`_claim` and `_settle` of
-- src/hoursx/channels/dispatch.py).
use hours_x.Prelude.{
  ℕ, ◌+◌, List, [], ◌∷◌, ◌++◌, Bool, true, false, ◌&&◌, String, leb, str_eq, eq_iff, ◌≡◌, ◌⊎◌, inl,
  inr, refl, ap, ◌∙◌, arith, subst, Bool-cases, All, All-snoc,
}
use hours_x.Channels.{ChannelReply, Replies}
use hours_x.Channels.Dispatch.{
  update_reply, matched, claim, claim_test, claim_values, any_row, abandon, outcome_row,
  record_outcome, max_attempts, is_pending,
}
use hours_x.Channels.Rows.{ids, Distinct}

-- A transaction of some dispatcher, or of the router that inserts a row.
pub data Transaction : Type 0 where
  claims : String → Bool → ℕ → Transaction
  records : ℕ → String → Bool → ℕ → Transaction
  abandons : String → Transaction
  inserts : ChannelReply → Transaction

unfoldable pub commit : Replies → Transaction → Replies
commit rs (claims id interim attempts) = (claim id interim attempts rs).1
commit rs (records max_attempts id ok now) = record_outcome max_attempts id ok now rs
commit rs (abandons id) = update_reply id (λ x. is_pending x.status) abandon rs
commit rs (inserts r) = rs ++ r ∷ []

unfoldable pub commit_all : Replies → List Transaction → Replies
commit_all rs [] = rs
commit_all rs (x ∷ xs) = commit_all (commit rs x) xs

-- The row of this id is not inserted.
abbrev pub Spares : String → Transaction → Type 0
Spares id (inserts r) = str_eq r.id id ≡ false
Spares id _ = Unit

-- The delivery has been claimed: the note is marked, or the count has passed.
passed : Bool → ℕ → ChannelReply → Bool
passed true attempts r = r.interim_sent
passed false attempts r = leb (attempts + 1) r.attempts

passed-values :
    (interim b : Bool) (attempts n : ℕ) (r : ChannelReply)
    → claim_test b n r ≡ true
    → passed interim attempts r ≡ true
    → passed interim attempts (claim_values b n r) ≡ true
unfolding passed
passed-values true true attempts n r e h = refl
passed-values true false attempts n r e h = h
passed-values false true attempts n r e h = h
passed-values false false attempts n r e h = ground arith

passed-own :
    (interim : Bool) (attempts : ℕ) (r : ChannelReply)
    → passed interim attempts (claim_values interim attempts r) ≡ true
unfolding passed
passed-own true attempts r = refl
passed-own false attempts r = ground arith

passed-refuses :
    (interim : Bool) (attempts : ℕ) (r : ChannelReply)
    → passed interim attempts r ≡ true
    → claim_test interim attempts r ≡ false
unfolding passed
passed-refuses true attempts r h = ground arith
passed-refuses false attempts r h = ground arith

passed-outcome :
    (interim : Bool) (attempts m : ℕ) (ok : Bool) (now : ℕ) (r : ChannelReply)
    → passed interim attempts r ≡ true
    → passed interim attempts (outcome_row m ok now r) ≡ true
unfolding passed
passed-outcome true attempts m true now r h = h
passed-outcome true attempts m false now r h = ground arith
passed-outcome false attempts m true now r h = h
passed-outcome false attempts m false now r h = ground arith

passed-abandon :
    (interim : Bool) (attempts : ℕ) (r : ChannelReply)
    → passed interim attempts r ≡ true
    → passed interim attempts (abandon r) ≡ true
unfolding passed
passed-abandon true attempts r h = h
passed-abandon false attempts r h = h

both_parts : (a b : Bool) → (a && b) ≡ true → b ≡ true
both_parts a b h = ground arith

module _ (id : String) (interim : Bool) (attempts : ℕ) where
  rest_matched :
      (r : ChannelReply) (rs : Replies)
      → str_eq r.id id ≡ false
      → matched id (claim_test interim attempts) (r ∷ rs) ≡ 1
      → matched id (claim_test interim attempts) rs ≡ 1
  unfolding matched
  rest_matched r rs other w = ground (arith, other, w)

  first_fails :
      (r : ChannelReply) (rs : Replies)
      → claim_test interim attempts r ≡ false
      → matched id (claim_test interim attempts) (r ∷ rs)
        ≡ matched id (claim_test interim attempts) rs
  unfolding matched
  first_fails r rs e = ground (arith, e)

  Past : ChannelReply → Type 0
  Past r = (str_eq r.id id ≡ false) ⊎ (passed interim attempts r ≡ true)

  -- Updates that keep the id and what has passed.
  update-Past :
      (j : String) (p : ChannelReply → Bool) (f : ChannelReply → ChannelReply) (rs : Replies)
      → ((r : ChannelReply) → (f r).id ≡ r.id)
      → ((r : ChannelReply)
          → p r ≡ true
          → passed interim attempts r ≡ true
          → passed interim attempts (f r) ≡ true)
      → All Past rs
      → All Past (update_reply j p f rs)
  unfolding update_reply Past
  update-Past j p f [] keeps g h = tt
  update-Past j p f (r ∷ rs) keeps g (inl other, t) = elim (Bool-cases (str_eq r.id j && p r)) [
    | inl e ↦ rw e (inl (ap (λ k. str_eq k id) (keeps r) ∙ other), update-Past j p f rs keeps g t)
    | inr e ↦ rw e (inl other, update-Past j p f rs keeps g t)
  ]
  update-Past j p f (r ∷ rs) keeps g (inr done, t) = elim (Bool-cases (str_eq r.id j && p r)) [
    | inl e ↦
        rw e (inr (g r (both_parts (str_eq r.id j) (p r) e) done), update-Past j p f rs keeps g t)
    | inr e ↦ rw e (inr done, update-Past j p f rs keeps g t)
  ]

  values-id : (b : Bool) (n : ℕ) (r : ChannelReply) → (claim_values b n r).id ≡ r.id
  values-id true n r = refl
  values-id false n r = refl

  outcome-id : (m : ℕ) (ok : Bool) (now : ℕ) (r : ChannelReply) → (outcome_row m ok now r).id ≡ r.id
  outcome-id m true now r = refl
  outcome-id m false now r = ground arith

  append-Past :
      (rs : Replies) (r : ChannelReply)
      → str_eq r.id id ≡ false
      → All Past rs
      → All Past (rs ++ r ∷ [])
  unfolding Past
  append-Past rs r e h = All-snoc Past rs r h (inl e)

  commit-Past :
      (rs : Replies) (x : Transaction) → Spares id x → All Past rs → All Past (commit rs x)
  unfolding commit claim record_outcome
  commit-Past rs (claims j b n) s h =
      update-Past j (claim_test b n) (claim_values b n) rs (λ r. values-id b n r)
        (λ r e k. passed-values interim b attempts n r e k) h
  commit-Past rs (records m j ok now) s h =
      update-Past j any_row (λ r. outcome_row m ok now r) rs (λ r. outcome-id m ok now r)
        (λ r e k. passed-outcome interim attempts m ok now r k) h
  commit-Past rs (abandons j) s h =
      update-Past j (λ x. is_pending x.status) abandon rs (λ r. refl)
        (λ r e k. passed-abandon interim attempts r k) h
  commit-Past rs (inserts r) s h = append-Past rs r s h

  commit_all-Past :
      (rs : Replies) (xs : List Transaction)
      → All (Spares id) xs
      → All Past rs
      → All Past (commit_all rs xs)
  unfolding commit_all
  commit_all-Past rs [] s h = h
  commit_all-Past rs (x ∷ xs) s h = commit_all-Past (commit rs x) xs s.1 (commit-Past rs x s.0 h)

  Past-matched : (rs : Replies) → All Past rs → matched id (claim_test interim attempts) rs ≡ 0
  unfolding matched Past
  Past-matched [] h = refl
  Past-matched (r ∷ rs) (inl other, t) = rw other (Past-matched rs t)
  Past-matched (r ∷ rs) (inr done, t) =
      ground (arith, passed-refuses interim attempts r done, Past-matched rs t)

  abbrev Elsewhere : Replies → Type 0
  Elsewhere rs = All (λ y. str_eq y id ≡ false) (ids rs)

  none-Past :
      (rs : Replies)
      → Elsewhere rs
      → All Past (update_reply id (claim_test interim attempts) (claim_values interim attempts) rs)
  unfolding update_reply Past
  none-Past [] h = tt
  none-Past (r ∷ rs) h = rw (h.0) (inl h.0, none-Past rs h.1)

  none_matched : (rs : Replies) → Elsewhere rs → matched id (claim_test interim attempts) rs ≡ 0
  unfolding matched
  none_matched [] h = refl
  none_matched (r ∷ rs) h = rw (h.0) (none_matched rs h.1)

  update_passed :
      (rs : Replies)
      → Distinct (ids rs)
      → matched id (claim_test interim attempts) rs ≡ 1
      → All Past (update_reply id (claim_test interim attempts) (claim_values interim attempts) rs)
  unfolding update_reply matched Past
  update_passed [] q w = tt
  update_passed (r ∷ rs) q w = elim (Bool-cases (str_eq r.id id)) [
    | inr other ↦ rw other (inl other, update_passed rs q.1 (rest_matched r rs other w))
    | inl same ↦
        let rest : Elsewhere rs =
          subst (λ k. All (λ y. str_eq y k ≡ false) (ids rs)) ((eq_iff r.id id).0 same) q.0 in
        elim (Bool-cases (claim_test interim attempts r)) [
          | inl e ↦ rw (same, e) (inr (passed-own interim attempts r), none-Past rs rest)
          | inr e ↦ absurd (omega (arith, w, first_fails r rs e, none_matched rs rest))
        ]
  ]

  -- The one row that a winning claim counts.
  won-Past :
      (rs : Replies)
      → Distinct (ids rs)
      → (claim id interim attempts rs).0 ≡ true
      → All Past (claim id interim attempts rs).1
  unfolding claim
  won-Past rs q w = update_passed rs q (ground arith)

  Past-loses : (rs : Replies) → All Past rs → (claim id interim attempts rs).0 ≡ false
  unfolding claim
  Past-loses rs h = ground (arith, Past-matched rs h)

-- Let the ids of the replies be distinct. A delivery, the interim note of a reply or the attempt of a
-- given number, is claimed at most once: once a dispatcher has won it, every later claim of it loses,
-- whatever transactions of any dispatchers come between, while no other reply takes the id.
pub claim-Once :
    (id : String) (interim : Bool) (attempts : ℕ) (rs : Replies) (xs : List Transaction)
    → Distinct (ids rs)
    → (claim id interim attempts rs).0 ≡ true
    → All (Spares id) xs
    → (claim id interim attempts (commit_all (claim id interim attempts rs).1 xs)).0 ≡ false
claim-Once id interim attempts rs xs q w s =
    Past-loses id interim attempts _
      (commit_all-Past id interim attempts _ xs s (won-Past id interim attempts rs q w))
