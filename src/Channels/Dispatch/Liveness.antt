-- ===== src/Channels/Dispatch/Liveness.antt =====
-- No reply whose run has ended stays owed: the sweeps of src/hoursx/channels/dispatch.py.
use hours_x.Prelude.{
  ℕ, zero, suc, ◌-◌, ◌≤◌, ◌<◌, [], ◌∷◌, true, false, Option, none, some, String, ltb, str_eq,
  eq_iff, eq_refl, take, take_all, length, ◌≡◌, inl, inr, refl, ap, ◌∙◌, arith, Bool-cases,
}
use hours_x.Prelude.Text.{is_one_of}
use hours_x.Runs.Store.{Run, Table, find_run}
use hours_x.Channels.{ChannelReply, Replies}
use hours_x.Channels.Dispatch.{
  Dispatcher, find_reply, max_attempts, sweep_once, is_pending, due_replies, due_ids, is_due,
  reportable,
}
use hours_x.Channels.Rows.{ids, Distinct}
use hours_x.Channels.Dispatch.Settles.{Over}
use hours_x.Channels.Dispatch.Owed.{
  not_sent, Live, Told, tries, Owed, Owed-weaken, all-Owed, among-Owed,
}

module _ (d : Dispatcher) (runs : Table) where
  found_here :
      (x : ChannelReply) (xs : Replies) (id : String) (r : ChannelReply)
      → str_eq x.id id ≡ true
      → find_reply id (x ∷ xs) ≡ some r
      → x ≡ r
  unfolding find_reply
  found_here x xs id r same e = ground (arith, same, e)

  found_later :
      (x : ChannelReply) (xs : Replies) (id : String) (r : ChannelReply)
      → str_eq x.id id ≡ false
      → find_reply id (x ∷ xs) ≡ some r
      → find_reply id xs ≡ some r
  unfolding find_reply
  found_later x xs id r other e = ground (arith, other, e)

  due_ids-mem :
      (id : String) (m : ℕ) (rs : Replies) (r : ChannelReply)
      → find_reply id rs ≡ some r
      → is_due m runs r ≡ true
      → is_one_of id (due_ids m runs rs) ≡ true
  unfolding due_ids is_one_of find_reply
  due_ids-mem id m [] r e h = cc
  due_ids-mem id m (x ∷ xs) r e h = elim (Bool-cases (str_eq x.id id)) [
    | inl same ↦
        let key : x.id ≡ id = (eq_iff x.id id).0 same in
        let row : x ≡ r = found_here x xs id r same e in
        let is_here : is_due m runs x ≡ true = ap (λ y. is_due m runs y) row ∙ h in
        rw (is_here, key, eq_refl id) refl
    | inr other ↦
        let later : is_one_of id (due_ids m runs xs) ≡ true =
          due_ids-mem id m xs r (found_later x xs id r other e) h in
        ground (arith, later)
  ]

  length-due : (m : ℕ) (rs : Replies) → length (due_ids m runs rs) ≤ length rs
  unfolding due_ids
  length-due m [] = omega arith
  length-due m (r ∷ rs) = ground (arith, length-due m rs)

  Over-reportable : (run : Option Run) → Over d runs run → reportable run ≡ true
  Over-reportable none o = refl
  Over-reportable (some run) o = ground arith

  due_is_reportable :
      (r : ChannelReply)
      → Over d runs (find_run r.run_id runs)
      → Live d runs r
      → is_pending r.status ≡ true
      → is_due (max_attempts d) runs r ≡ true
  unfolding is_due
  due_is_reportable r o live wait =
      let tried : ltb r.attempts (max_attempts d) ≡ true =
        ground (arith, tries d runs r live wait) in
      rw (wait, tried, Over-reportable (find_run r.run_id runs) o) refl

  sweep-Owed :
      (id : String) (n : ℕ) (rs : Replies)
      → Owed d runs id n rs
      → Owed d runs id (n - 1) (sweep_once d runs rs).0
  unfolding sweep_once due_replies Owed
  sweep-Owed id n rs (r, e, o, live, told, le, q, short) = elim (Bool-cases (is_pending r.status)) [
    | inl wait ↦
        among-Owed d runs id n (take 100 (due_ids (max_attempts d) runs rs)) rs
          (ap (λ js. is_one_of id js)
              (take_all 100 (due_ids (max_attempts d) runs rs)
                (omega (arith, short, length-due (max_attempts d) rs)))
            ∙ due_ids-mem id (max_attempts d) rs r e (due_is_reportable r o live wait))
          (r, e, o, live, told, le, q, short)
    | inr over ↦ Owed-weaken d runs id 0 (n - 1) _ (omega arith) (
        all-Owed d runs id 0 (take 100 (due_ids (max_attempts d) runs rs)) rs
          (r, e, o, live, told, ground arith, q, short))
  ]

  -- Sweeps one after the other.
  unfoldable pub sweeps : ℕ → Replies → Replies
  sweeps zero rs = rs
  sweeps (suc n) rs = sweeps n (sweep_once d runs rs).0

  sweeps-Owed :
      (id : String) (n m : ℕ) (rs : Replies)
      → Owed d runs id m rs
      → Owed d runs id (m - n) (sweeps n rs)
  unfolding sweeps
  sweeps-Owed id zero m rs w = Owed-weaken d runs id m (m - 0) rs (omega arith) w
  sweeps-Owed id (suc n) m rs w =
      Owed-weaken d runs id (m - 1 - n) (m - suc n) _ (omega arith)
        (sweeps-Owed id n (m - 1) _ (sweep-Owed id m rs w))

  not_told : (run : Option Run) (r : ChannelReply) → is_pending r.status ≡ true → Told d runs run r
  not_told none r h = not_sent r.status h
  not_told (some run) r h = inl (not_sent r.status h)

  start :
      (id : String) (rs : Replies) (r : ChannelReply)
      → find_reply id rs ≡ some r
      → Over d runs (find_run r.run_id runs)
      → is_pending r.status ≡ true
      → r.attempts < max_attempts d
      → Distinct (ids rs)
      → length rs ≤ 100
      → Owed d runs id (max_attempts d) rs
  unfolding Owed
  start id rs r e o wait lt q short =
      (r, e, o, inr lt, not_told (find_run r.run_id runs) r wait, ground arith, q, short)

  finished :
      (id : String) (rs : Replies)
      → Owed d runs id (max_attempts d - max_attempts d) rs
      → (r : ChannelReply) × (find_reply id rs ≡ some r)
        × (is_pending r.status ≡ false)
        × Told d runs (find_run r.run_id runs) r
  unfolding Owed
  finished id rs (r, e, o, live, told, le, q, short) = (r, e, ground arith, told)

  -- Let the ids of at most 100 replies be distinct, and let one of them be pending with tries left, its
  -- run ended or gone, and let every send give an answer and raise nothing. After as many sweeps as there
  -- are tries in all, one after the other, whatever the services answer,
  -- the reply is settled; and if it counts as sent, then the service took the answer of its run.
  pub sweeps-Settled :
      (id : String) (rs : Replies) (r : ChannelReply)
      → find_reply id rs ≡ some r
      → Over d runs (find_run r.run_id runs)
      → is_pending r.status ≡ true
      → r.attempts < max_attempts d
      → Distinct (ids rs)
      → length rs ≤ 100
      → (r' : ChannelReply) × (find_reply id (sweeps (max_attempts d) rs) ≡ some r')
        × (is_pending r'.status ≡ false)
        × Told d runs (find_run r'.run_id runs) r'
  sweeps-Settled id rs r e o wait lt q short =
      finished id _
        (sweeps-Owed id (max_attempts d) (max_attempts d) rs (start id rs r e o wait lt q short))
