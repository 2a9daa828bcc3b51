-- ===== src/Channels/Dispatch/Settles.antt =====
-- Sweep after sweep, a dispatcher of src/hoursx/channels/dispatch.py settles every reply whose run has
-- ended.
use hours_x.Prelude.{
  ℕ, Bool, true, false, ◌&&◌, Option, none, some, String, if◌then◌else◌, str_eq, eq_refl, ◌≡◌, inl,
  inr, refl, sym, ap, ◌∙◌, arith, subst, Bool-cases,
}
use hours_x.Runs.Store.{Run, Table, find_run, is_terminal}
use hours_x.Channels.{ChannelReply, Replies}
use hours_x.Channels.Dispatch.{
  Dispatcher, find_reply, update_reply, claim, claim_test, claim_values, any_row, abandon,
  outcome_row, record_outcome, message_for, max_attempts, after_send, after_claim, deliver,
  with_run, with_reply, settle, is_pending, is_awaiting,
}
use hours_x.Channels.Rows.{ids, Distinct, ids-update, updated, find-update, find-id, matched_one}

module _ (d : Dispatcher) (runs : Table) where
  outcome-id : (m : ℕ) (ok : Bool) (now : ℕ) (r : ChannelReply) → (outcome_row m ok now r).id ≡ r.id
  outcome-id m true now r = refl
  outcome-id m false now r = ground arith

  claim-id : (interim : Bool) (n : ℕ) (r : ChannelReply) → (claim_values interim n r).id ≡ r.id
  claim-id true n r = refl
  claim-id false n r = refl

  -- A statement on the rows that every update at `j` keeps is kept by settling `j`.
  module _ (j : String) (Q : Replies → Type 0)
      (kept : (k : String) (p : ChannelReply → Bool) (f : ChannelReply → ChannelReply)
          (rs : Replies)
        → k ≡ j
        → ((x : ChannelReply) → (f x).id ≡ x.id)
        → Q rs
        → Q (update_reply k p f rs)) where
    after_claim-Keeps :
        (r : ChannelReply) (run : Run) (interim won : Bool) (rs : Replies)
        → r.id ≡ j
        → Q rs
        → Q (after_claim d r run interim (won, rs)).0
    unfolding after_claim after_send record_outcome
    after_claim-Keeps r run interim false rs e q = q
    after_claim-Keeps r run true true rs e q = q
    after_claim-Keeps r run false true rs e q =
        let ok = d.send (message_for false run r) r.attempts in
        kept r.id any_row (λ x. outcome_row (max_attempts d) ok d.now x) rs e
          (λ x. outcome-id (max_attempts d) ok d.now x) q

    deliver-Keeps :
        (interim : Bool) (r : ChannelReply) (run : Run) (rs : Replies)
        → r.id ≡ j
        → Q rs
        → Q (deliver d interim r run rs).0
    unfolding deliver claim
    deliver-Keeps interim r run rs e q = elim (Bool-cases (d.configured r.channel)) [
      | inl c ↦ rw c (
          after_claim-Keeps r run interim _ _ e (
            kept r.id (claim_test interim r.attempts) (claim_values interim r.attempts) rs e
              (λ x. claim-id interim r.attempts x) q))
      | inr c ↦ rw c (kept r.id (λ x. is_pending x.status) abandon rs e (λ x. refl) q)
    ]

    with_run-Keeps :
        (r : ChannelReply) (run : Option Run) (rs : Replies)
        → r.id ≡ j
        → Q rs
        → Q (with_run d r run rs).0
    unfolding with_run
    with_run-Keeps r none rs e q = kept r.id any_row abandon rs e (λ x. refl) q
    with_run-Keeps r (some run) rs e q =
        elim (Bool-cases (is_awaiting run.status && r.interim_sent)) [
          | inl c ↦ rw c q
          | inr c ↦ rw c (deliver-Keeps (is_awaiting run.status) r run rs e q)
        ]

    with_reply-Keeps :
        (found : Option ChannelReply) (rs : Replies)
        → find_reply j rs ≡ found
        → Q rs
        → Q (with_reply d runs found rs).0
    unfolding with_reply
    with_reply-Keeps none rs e q = q
    with_reply-Keeps (some r) rs e q = elim (Bool-cases (is_pending r.status)) [
      | inl c ↦ rw c (with_run-Keeps r (find_run r.run_id runs) rs (find-id j rs r e) q)
      | inr c ↦ rw c q
    ]

    pub settle-Keeps : (rs : Replies) → Q rs → Q (settle d runs j rs).0
    unfolding settle
    settle-Keeps rs q = with_reply-Keeps (find_reply j rs) rs refl q

  pub settle-Distinct :
      (j : String) (rs : Replies) → Distinct (ids rs) → Distinct (ids (settle d runs j rs).0)
  settle-Distinct j =
      settle-Keeps j (λ rs. Distinct (ids rs))
        (λ k p f rs e keeps q. subst Distinct (sym (ids-update k p f rs keeps)) q)

  other_row :
      (id j k : String) (p : ChannelReply → Bool) (f : ChannelReply → ChannelReply)
      (r : ChannelReply)
      → str_eq id j ≡ false
      → k ≡ j
      → r.id ≡ id
      → updated k p f r ≡ r
  other_row id j k p f r ne e key = rw (key, e, ne) refl

  -- Settling another reply leaves this one as it is.
  pub settle_other :
      (id j : String) (r : ChannelReply) (rs : Replies)
      → str_eq id j ≡ false
      → find_reply id rs ≡ some r
      → find_reply id (settle d runs j rs).0 ≡ some r
  settle_other id j r rs ne =
      settle-Keeps j (λ rs. find_reply id rs ≡ some r)
        (λ k p f rs e keeps q.
          find-update id k p f rs r keeps q
          ∙ ap some (other_row id j k p f r ne e (find-id id rs r q)))
        rs

  -- The run has ended, or is gone.
  abbrev pub Over : Option Run → Type 0
  Over none = Unit
  Over (some run) = is_terminal run.status ≡ true

  -- What settling makes of a pending reply whose run is over.
  abbrev pub row_after : Option Run → ChannelReply → ChannelReply
  row_after none r = abandon r
  row_after (some run) r =
      if d.configured r.channel
      then outcome_row (max_attempts d) (d.send (message_for false run r) r.attempts) d.now
          (claim_values false r.attempts r)
      else abandon r

  find_own :
      (p : ChannelReply → Bool) (f : ChannelReply → ChannelReply) (rs : Replies) (r : ChannelReply)
      → ((x : ChannelReply) → (f x).id ≡ x.id)
      → find_reply r.id rs ≡ some r
      → p r ≡ true
      → find_reply r.id (update_reply r.id p f rs) ≡ some (f r)
  find_own p f rs r keeps e h =
      find-update r.id r.id p f rs r keeps e ∙ ap some (rw (eq_refl r.id, h) refl)

  pub claim_passes :
      (r : ChannelReply) → is_pending r.status ≡ true → claim_test false r.attempts r ≡ true
  claim_passes r h = ground arith

  unfoldable pub claimed_rows : ChannelReply → Replies → Replies
  claimed_rows r = update_reply r.id (claim_test false r.attempts) (claim_values false r.attempts)

  pub claimed :
      (rs : Replies) (r : ChannelReply)
      → Distinct (ids rs)
      → find_reply r.id rs ≡ some r
      → is_pending r.status ≡ true
      → claim r.id false r.attempts rs ≡ (true, claimed_rows r rs)
  unfolding claim claimed_rows
  claimed rs r q e h =
      rw (matched_one r.id (claim_test false r.attempts) rs r q e, claim_passes r h) refl

  pub find_claimed :
      (rs : Replies) (r : ChannelReply)
      → find_reply r.id rs ≡ some r
      → is_pending r.status ≡ true
      → find_reply r.id (claimed_rows r rs) ≡ some (claim_values false r.attempts r)
  unfolding claimed_rows
  find_claimed rs r e h =
      find_own (claim_test false r.attempts) (claim_values false r.attempts) rs r (λ x. refl) e
        (claim_passes r h)

  sent_row :
      (rs : Replies) (r : ChannelReply) (run : Run)
      → find_reply r.id rs ≡ some r
      → is_pending r.status ≡ true
      → find_reply r.id (after_claim d r run false (true, claimed_rows r rs)).0
        ≡ some (
            outcome_row
              (max_attempts d)
              (d.send (message_for false run r) r.attempts)
              d.now
              (claim_values false r.attempts r))
  unfolding after_claim after_send record_outcome
  sent_row rs r run e h =
      let ok = d.send (message_for false run r) r.attempts in
      find_own any_row (λ x. outcome_row (max_attempts d) ok d.now x) (claimed_rows r rs)
        (claim_values false r.attempts r) (λ x. outcome-id (max_attempts d) ok d.now x)
        (find_claimed rs r e h) refl

  deliver_row :
      (rs : Replies) (r : ChannelReply) (run : Run)
      → Distinct (ids rs)
      → find_reply r.id rs ≡ some r
      → is_pending r.status ≡ true
      → find_reply r.id (deliver d false r run rs).0 ≡ some (row_after (some run) r)
  unfolding deliver
  deliver_row rs r run q e h = elim (Bool-cases (d.configured r.channel)) [
    | inl c ↦ rw (c, claimed rs r q e h) (sent_row rs r run e h)
    | inr c ↦ rw c (find_own (λ x. is_pending x.status) abandon rs r (λ x. refl) e h)
  ]

  pub not_awaiting : (run : Run) → is_terminal run.status ≡ true → is_awaiting run.status ≡ false
  not_awaiting run h = ground arith

  with_run_row :
      (rs : Replies) (r : ChannelReply) (run : Option Run)
      → Over run
      → Distinct (ids rs)
      → find_reply r.id rs ≡ some r
      → is_pending r.status ≡ true
      → find_reply r.id (with_run d r run rs).0 ≡ some (row_after run r)
  unfolding with_run
  with_run_row rs r none o q e h = find_own any_row abandon rs r (λ x. refl) e refl
  with_run_row rs r (some run) o q e h = rw (not_awaiting run o) (deliver_row rs r run q e h)

  -- A pending reply whose run is over becomes what `row_after` says.
  pub settle_row :
      (rs : Replies) (r : ChannelReply)
      → Over (find_run r.run_id runs)
      → Distinct (ids rs)
      → find_reply r.id rs ≡ some r
      → is_pending r.status ≡ true
      → find_reply r.id (settle d runs r.id rs).0 ≡ some (row_after (find_run r.run_id runs) r)
  unfolding settle with_reply
  settle_row rs r o q e h = rw (e, h) (with_run_row rs r (find_run r.run_id runs) o q e h)
