-- ===== src/Channels/Inbound/Redelivery.antt =====
-- A webhook that is delivered again reaches the same run and owes no second reply
-- (`handle_inbound` of src/hoursx/channels/router.py).
use Prim.Native.String.append
use text.Mathlib.TextLemmas.{cons≢nil}
use hours_x.Prelude.{
  [], ◌∷◌, ◌++◌, true, false, none, some, String, eq_refl, ◌≡◌, ◌≢◌, refl, sym, ap, ◌∙◌, subst,
  arith, Option-cases, inl, inr,
}
use hours_x.Runs.Store.{Table}
use hours_x.Runs.Intake.{
  QuotaPolicy, Submitted, submitted, not_found, refused, submit_message, submit_retried,
}
use hours_x.Channels.{InboundMessage, ChannelReply, Replies, dedupe_key}
use hours_x.Channels.Inbound.{
  Session, Database, ChannelTarget, Delivery, RoutedRun, find_session, find_owed, owed_reply, ok,
  session_for, after_submit, owe_reply, routed, submit, handle_inbound,
}
use hours_x.Channels.Inbound.Sessions.{
  >>=-eq-ok, ok-value, ok-last, not_failed, Bound, Bound-session, session_for-Bound,
}

find_owed-append :
    (r : ChannelReply) (rs : Replies)
    → find_owed r.run_id rs ≡ none
    → find_owed r.run_id (rs ++ r ∷ []) ≡ some r
unfolding find_owed
find_owed-append r [] h = simp eq_refl
find_owed-append r (x ∷ xs) h = ground (arith, find_owed-append r xs)

module _ (m : InboundMessage) (target : ChannelTarget) where
  abbrev taken : QuotaPolicy → Delivery → Session → (String → String) → Table → Submitted × Table
  taken policy v s digest runs =
      submit_message policy v.run_id (some s.workspace_id) (some (dedupe_key digest m)) v.now runs

  after_submit-inv :
      (db last : Database) (x : Submitted × Table) (run : String)
      → after_submit m target db x ≡ ok run last
      → (x.0 ≡ submitted run) × (last ≡ record db { runs = x.1 })
  unfolding after_submit
  after_submit-inv db last (submitted id, runs) run h = (ap submitted (ok-value h), sym (ok-last h))
  after_submit-inv db last (not_found, runs) run h = not_failed h
  after_submit-inv db last (refused q, runs) run h = not_failed h

  dedupe_key-NotEmpty : (digest : String → String) → dedupe_key digest m ≢ ""
  unfolding dedupe_key
  dedupe_key-NotEmpty digest e = cons≢nil (sym (append.cons "c" "h:" _) ∙ e)

  -- A reply is owed for a run, whether it is a new one or not.
  owe_reply-owes :
      (v : Delivery) (run : String) (db : Database)
      → (r : ChannelReply) × (find_owed run (owe_reply m target v run db).1.replies ≡ some r)
  unfolding owe_reply owed_reply
  owe_reply-owes v run db = elim (Option-cases (find_owed run db.replies)) [
    | inl e ↦
        let r = owed_reply m v.reply_id target.workspace_id run in
        (r, rw (owe_reply, e) (find_owed-append r db.replies e))
    | inr (r, e) ↦ (r, rw (owe_reply, e) e)
  ]

  owe_reply-again :
      (v : Delivery) (run : String) (db : Database) (r : ChannelReply)
      → find_owed run db.replies ≡ some r
      → owe_reply m target v run db ≡ (false, db)
  unfolding owe_reply
  owe_reply-again v run db r e = rw (owe_reply, e) refl

  abbrev Kept : Database → Database → Type 0
  Kept db after =
      (after.bindings ≡ db.bindings) × (after.sessions ≡ db.sessions) × (after.runs ≡ db.runs)

  owe_reply-Kept :
      (v : Delivery) (run : String) (db : Database) → Kept db (owe_reply m target v run db).1
  unfolding owe_reply
  owe_reply-Kept v run db = elim (Option-cases (find_owed run db.replies)) [
    | inl e ↦ rw (owe_reply, e) (refl, refl, refl)
    | inr (r, e) ↦ rw (owe_reply, e) (refl, refl, refl)
  ]

  submit-again :
      (digest : String → String) (policy later_policy : QuotaPolicy) (v later : Delivery)
      (s : Session) (db last after : Database) (run : String)
      → submit m target digest policy v s db ≡ ok run last
      → after.runs ≡ last.runs
      → submit m target digest later_policy later s after ≡ ok run after
  unfolding submit after_submit
  submit-again digest policy later_policy v later s db last after run h same =
      let (e, f) = after_submit-inv db last (taken policy v s digest db.runs) run h in
      let runs : (taken policy v s digest db.runs).1 ≡ after.runs = cc in
      let g =
        submit_retried policy later_policy v.run_id later.run_id s.workspace_id
          (dedupe_key digest m) v.now later.now db.runs run (dedupe_key-NotEmpty digest) e in
      ap (after_submit m target after)
        (subst (λ x. taken later_policy later s digest x ≡ (submitted run, x)) runs g)

  abbrev twice : Session → String → RoutedRun
  twice s run = record { run_id = run; session_id = s.id; duplicate = true }

  inbound_again :
      (digest : String → String) (policy : QuotaPolicy) (v : Delivery) (s : Session) (run : String)
      (db : Database) (r : ChannelReply)
      → Bound m target db.bindings db.sessions s
      → submit m target digest policy v s db ≡ ok run db
      → find_owed run db.replies ≡ some r
      → handle_inbound m target digest policy v db ≡ ok (twice s run) db
  unfolding handle_inbound routed
  inbound_again digest policy v s run db r b h e =
      rw (Bound-session m target v db s b, h, owe_reply-again v run db r e) refl

  -- The statement below, of the database that the first delivery left.
  Settled : (String → String) → QuotaPolicy → Delivery → RoutedRun → Database → Type 0
  Settled digest policy v out db =
      (handle_inbound m target digest policy v db ≡ ok (record out { duplicate = true }) db)
      × (r : ChannelReply) × (find_owed out.run_id db.replies ≡ some r)

  routed_again :
      (digest : String → String) (policy later_policy : QuotaPolicy) (v later : Delivery)
      (s : Session) (run : String) (opened taken_once : Database)
      → Bound m target opened.bindings opened.sessions s
      → submit m target digest policy v s opened ≡ ok run taken_once
      → Settled digest later_policy later (twice s run) (owe_reply m target v run taken_once).1
  unfolding Settled submit
  routed_again digest policy later_policy v later s run opened taken_once b h =
      let (_, after) = after_submit-inv opened taken_once _ run h in
      let (kept_bindings, kept_sessions, kept_runs) = owe_reply-Kept v run taken_once in
      let (r, e) = owe_reply-owes v run taken_once in
      let end = (owe_reply m target v run taken_once).1 in
      let bound : Bound m target end.bindings end.sessions s =
        rw (kept_bindings, kept_sessions)
          (subst (λ x. Bound m target x.bindings x.sessions s) (sym after) b) in
      (
        inbound_again digest later_policy later s run end r bound
            (submit-again digest policy later_policy v later s opened taken_once end run h
              kept_runs)
            e,
        r,
        e,
      )

  -- A message that was routed, over a drawn session id that is free, and that is delivered again at any
  -- time and under any quota, with nothing between, gives the same run and session, marked as a
  -- duplicate, and changes nothing: no second run, no second session, no second reply. A reply is owed for the run.
  pub handle_inbound-Redelivered :
      (digest : String → String) (policy later_policy : QuotaPolicy) (v later : Delivery)
      (db last : Database) (out : RoutedRun)
      → find_session v.session_id db.sessions ≡ none
      → handle_inbound m target digest policy v db ≡ ok out last
      → (handle_inbound m target digest later_policy later last
          ≡ ok (record out { duplicate = true }) last)
        × (r : ChannelReply) × (find_owed out.run_id last.replies ≡ some r)
  unfolding handle_inbound routed Settled
  handle_inbound-Redelivered digest policy later_policy v later db last out fresh h =
      let (s, opened, hs, h₁) = >>=-eq-ok (session_for m target v db) _ h in
      let (run, taken_once, hr, h₂) = >>=-eq-ok (submit m target digest policy v s opened) _ h₁ in
      let done =
        routed_again digest policy later_policy v later s run opened taken_once
          (session_for-Bound m target v db opened s fresh hs) hr in
      subst (λ x. Settled digest later_policy later x last) (ok-value h₂)
        (subst (λ x. Settled digest later_policy later (twice s run) x) (ok-last h₂) done)

  -- A message that is routed has a reply owed for its run.
  pub handle_inbound-owes :
      (digest : String → String) (policy : QuotaPolicy) (v : Delivery) (db last : Database)
      (out : RoutedRun)
      → handle_inbound m target digest policy v db ≡ ok out last
      → (r : ChannelReply) × (find_owed out.run_id last.replies ≡ some r)
  unfolding handle_inbound routed
  handle_inbound-owes digest policy v db last out h =
      let (s, opened, hs, h₁) = >>=-eq-ok (session_for m target v db) _ h in
      let (run, taken_once, hr, h₂) = >>=-eq-ok (submit m target digest policy v s opened) _ h₁ in
      let owes = owe_reply-owes v run taken_once in
      subst (λ x. (r : ChannelReply) × (find_owed x.run_id last.replies ≡ some r)) (ok-value h₂)
        (subst (λ x. (r : ChannelReply) × (find_owed run x.replies ≡ some r)) (ok-last h₂) owes)
