-- ===== src/Channels/Dispatch/Race.antt =====
-- A message in flight does not hold off another dispatcher (`_settle` and `_claim` of
-- src/hoursx/channels/dispatch.py).
use hours_x.Prelude.{[], ◌∷◌, true, false, some, ◌≡◌, refl, sym, subst}
use hours_x.Runs.Store.{Run, Table, find_run, is_terminal}
use hours_x.Channels.{ChannelReply, Replies}
use hours_x.Channels.Dispatch.{
  Dispatcher, find_reply, claim, claim_values, message_for, after_send, after_claim, deliver,
  with_run, with_reply, settle, is_pending, claim_test,
}
use hours_x.Channels.Rows.{ids, Distinct, ids-update}
use hours_x.Channels.Dispatch.Settles.{claimed, claimed_rows, find_claimed, not_awaiting}

module _ (d : Dispatcher) (runs : Table) where
  sends_message :
      (rs : Replies) (r : ChannelReply) (run : Run)
      → Distinct (ids rs)
      → find_reply r.id rs ≡ some r
      → is_pending r.status ≡ true
      → d.configured r.channel ≡ true
      → (deliver d false r run rs).1 ≡ message_for false run r ∷ []
  unfolding deliver after_claim after_send
  sends_message rs r run q e h c = rw (c, claimed d runs rs r q e h) refl

  settle_sends :
      (rs : Replies) (r : ChannelReply) (run : Run)
      → Distinct (ids rs)
      → find_reply r.id rs ≡ some r
      → is_pending r.status ≡ true
      → d.configured r.channel ≡ true
      → find_run r.run_id runs ≡ some run
      → is_terminal run.status ≡ true
      → (settle d runs r.id rs).1 ≡ message_for false run r ∷ []
  unfolding settle with_reply with_run
  settle_sends rs r run q e h c f o =
      rw (e, h) (rw (f, with_run) (rw (not_awaiting d runs run o) (sends_message rs r run q e h c)))

  claimed-Distinct :
      (rs : Replies) (r : ChannelReply)
      → Distinct (ids rs)
      → Distinct (ids (claimed_rows d runs r rs))
  unfolding claimed_rows
  claimed-Distinct rs r q =
      subst Distinct
        (sym (
          ids-update r.id (claim_test false r.attempts) (claim_values false r.attempts) rs
            (λ x. refl)))
        q

  -- Let a dispatcher have won the claim of a reply whose run has ended, with its message still on the way.
  -- A dispatcher that comes to the reply now sends the message too, whatever the number of attempts is,
  -- so also beyond the maximum.
  pub in_flight_again :
      (rs : Replies) (r : ChannelReply) (run : Run)
      → Distinct (ids rs)
      → find_reply r.id rs ≡ some r
      → is_pending r.status ≡ true
      → d.configured r.channel ≡ true
      → find_run r.run_id runs ≡ some run
      → is_terminal run.status ≡ true
      → ((claim r.id false r.attempts rs).0 ≡ true)
        × ((settle d runs r.id (claim r.id false r.attempts rs).1).1 ≡ message_for false run r ∷ [])
  unfolding message_for
  in_flight_again rs r run q e h c f o = rw (claimed d runs rs r q e h) (
    refl,
    settle_sends (claimed_rows d runs r rs) (claim_values false r.attempts r) run
        (claimed-Distinct rs r q) (find_claimed d runs rs r e h) h c f o,
  )
