-- ===== src/Channels/Dispatch/Owed.antt =====
-- What a reply whose run has ended still has before it: the tries that are left (src/hoursx/channels/dispatch.py).
use hours_x.Prelude.{
  ℕ, ◌+◌, ◌-◌, ◌≤◌, ◌<◌, List, [], ◌∷◌, Bool, true, false, Option, none, some, String,
  if◌then◌else◌, leb, str_eq, eq_iff, length, ◌≡◌, ◌⊎◌, inl, inr, refl, sym, ap, arith, subst,
  Bool-cases,
}
use hours_x.Prelude.Text.{is_one_of}
use hours_x.Runs.Store.{Run, Table, find_run}
use hours_x.Channels.{ReplyStatus, sent, ChannelReply, Replies}
use hours_x.Channels.Dispatch.{
  Dispatcher, find_reply, update_reply, outcome_row, message_for, max_attempts, with_reply, settle,
  settle_all, is_pending, claim_values,
}
use hours_x.Channels.Rows.{ids, Distinct, find-id}
use hours_x.Channels.Dispatch.Settles.{
  Over, row_after, settle_row, settle_other, settle-Keeps, settle-Distinct,
}

abbrev pub is_sent : ReplyStatus → Bool
is_sent sent = true
is_sent _ = false

pub not_sent : (st : ReplyStatus) → is_pending st ≡ true → is_sent st ≡ false
not_sent st h = ground arith

length-update :
    (j : String) (p : ChannelReply → Bool) (f : ChannelReply → ChannelReply) (rs : Replies)
    → length (update_reply j p f rs) ≡ length rs
unfolding update_reply
length-update j p f [] = refl
length-update j p f (r ∷ rs) = omega (arith, length-update j p f rs)

module _ (d : Dispatcher) (runs : Table) where
  -- The tries that are left to a reply.
  abbrev pub left : ChannelReply → ℕ
  left r = if is_pending r.status then max_attempts d - r.attempts else 0

  abbrev pub Live : ChannelReply → Type 0
  Live r = (is_pending r.status ≡ false) ⊎ (r.attempts < max_attempts d)

  -- A reply counts as sent only when the service took the answer of its run.
  abbrev pub Told : Option Run → ChannelReply → Type 0
  Told none r = is_sent r.status ≡ false
  Told (some run) r =
      (is_sent r.status ≡ false) ⊎ ((k : ℕ) × (d.send (message_for false run r) k ≡ true))

  outcome_facts :
      (run : Run) (r : ChannelReply) (ok : Bool)
      → d.send (message_for false run r) r.attempts ≡ ok
      → is_pending r.status ≡ true
      → r.attempts < max_attempts d
      → let r' = outcome_row (max_attempts d) ok d.now (claim_values false r.attempts r) in
        (r'.run_id ≡ r.run_id) × Live r' × Told (some run) r' × (left r' ≤ left r - 1)
  unfolding message_for
  outcome_facts run r true e p lt = (refl, inl refl, inr (r.attempts, e), omega arith)
  outcome_facts run r false e p lt = elim (Bool-cases (leb (max_attempts d) (r.attempts + 1))) [
    | inl last ↦ rw last (refl, inl refl, inl refl, omega arith)
    | inr more ↦ rw more (refl, inr (ground arith), inl (not_sent r.status p), ground arith)
  ]

  row_facts :
      (run : Option Run) (r : ChannelReply)
      → is_pending r.status ≡ true
      → r.attempts < max_attempts d
      → let r' = row_after d runs run r in
        (r'.run_id ≡ r.run_id) × Live r' × Told run r' × (left r' ≤ left r - 1)
  row_facts none r p lt = (refl, inl refl, refl, omega arith)
  row_facts (some run) r p lt = elim (Bool-cases (d.configured r.channel)) [
    | inl c ↦ rw c (outcome_facts run r (d.send (message_for false run r) r.attempts) refl p lt)
    | inr c ↦ rw c (refl, inl refl, inl refl, omega arith)
  ]

  pub tries : (r : ChannelReply) → Live r → is_pending r.status ≡ true → r.attempts < max_attempts d
  tries r live wait = ground arith

  -- The reply of this id has at most `n` tries left, and all is as it should be with it.
  unfoldable pub Owed : String → ℕ → Replies → Type 0
  Owed id n rs =
      (r : ChannelReply) × (find_reply id rs ≡ some r)
      × Over d runs (find_run r.run_id runs)
      × Live r
      × Told (find_run r.run_id runs) r
      × (left r ≤ n)
      × Distinct (ids rs)
      × (length rs ≤ 100)

  length-settle :
      (j : String) (rs : Replies) → length rs ≤ 100 → length (settle d runs j rs).0 ≤ 100
  length-settle j =
      settle-Keeps d runs j (λ rs. length rs ≤ 100)
        (λ k p f rs e keeps q. omega (arith, length-update k p f rs, q))

  settle_done :
      (j : String) (rs : Replies) (r : ChannelReply)
      → find_reply j rs ≡ some r
      → is_pending r.status ≡ false
      → (settle d runs j rs).0 ≡ rs
  unfolding settle with_reply
  settle_done j rs r e p = rw (e, p) refl

  settle-Owed :
      (id : String) (n : ℕ) (rs : Replies) → Owed id n rs → Owed id (n - 1) (settle d runs id rs).0
  unfolding Owed
  settle-Owed id n rs (r, e, o, live, told, le, q, short) =
      elim (Bool-cases (is_pending r.status)) [
        | inr over ↦
            let same = settle_done id rs r e over in
            rw same (r, e, o, live, told, ground arith, q, short)
        | inl wait ↦
            let run = find_run r.run_id runs in
            let (same_id, live', told', less) = row_facts run r wait (tries r live wait) in
            let same = ap (λ k. find_run k runs) same_id in
            (
              row_after d runs run r,
              subst
                  (λ k.
                    find_reply k rs ≡ some r
                    → find_reply k (settle d runs k rs).0 ≡ some (row_after d runs run r))
                  (find-id id rs r e) (λ x. settle_row d runs rs r o q x wait) e,
              subst (Over d runs) (sym same) o,
              live',
              subst (λ x. Told x (row_after d runs run r)) (sym same) told',
              omega (arith, less, le),
              settle-Distinct d runs id rs q,
              length-settle id rs short,
            )
      ]

  settle_other-Owed :
      (id j : String) (n : ℕ) (rs : Replies)
      → str_eq id j ≡ false
      → Owed id n rs
      → Owed id n (settle d runs j rs).0
  unfolding Owed
  settle_other-Owed id j n rs ne (r, e, o, live, told, le, q, short) = (
    r,
    settle_other d runs id j r rs ne e,
    o,
    live,
    told,
    le,
    settle-Distinct d runs j rs q,
    length-settle j rs short,
  )

  pub Owed-weaken : (id : String) (m n : ℕ) (rs : Replies) → m ≤ n → Owed id m rs → Owed id n rs
  unfolding Owed
  Owed-weaken id m n rs h (r, e, o, live, told, le, q, short) =
      (r, e, o, live, told, omega (arith, h, le), q, short)

  settle_any-Owed :
      (id j : String) (n : ℕ) (rs : Replies) → Owed id n rs → Owed id n (settle d runs j rs).0
  settle_any-Owed id j n rs w = elim (Bool-cases (str_eq id j)) [
    | inl same ↦
        let key : id ≡ j = (eq_iff id j).0 same in
        Owed-weaken id (n - 1) n _ (omega arith)
          (subst (λ k. Owed id (n - 1) (settle d runs k rs).0) key (settle-Owed id n rs w))
    | inr other ↦ settle_other-Owed id j n rs other w
  ]

  pub all-Owed :
      (id : String) (n : ℕ) (js : List String) (rs : Replies)
      → Owed id n rs
      → Owed id n (settle_all d runs js rs).0
  unfolding settle_all
  all-Owed id n [] rs w = w
  all-Owed id n (j ∷ js) rs w = all-Owed id n js _ (settle_any-Owed id j n rs w)

  pub among-Owed :
      (id : String) (n : ℕ) (js : List String) (rs : Replies)
      → is_one_of id js ≡ true
      → Owed id n rs
      → Owed id (n - 1) (settle_all d runs js rs).0
  unfolding settle_all is_one_of
  among-Owed id n [] rs m w = cc
  among-Owed id n (j ∷ js) rs m w = elim (Bool-cases (str_eq id j)) [
    | inl same ↦
        let key : id ≡ j = (eq_iff id j).0 same in
        all-Owed id (n - 1) js _
          (subst (λ k. Owed id (n - 1) (settle d runs k rs).0) key (settle-Owed id n rs w))
    | inr other ↦
        among-Owed id n js _ (ground (arith, other, m)) (settle_other-Owed id j n rs other w)
  ]
