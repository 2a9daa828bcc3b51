-- ===== src/Channels/Rows.antt =====
-- The rows of replies by their ids: what a look-up gives after an update (the table of
-- src/hoursx/channels/dispatch.py).
use hours_x.Prelude.{
  List, [], ◌∷◌, Bool, false, ◌&&◌, some, String, if◌then◌else◌, str_eq, eq_iff, ◌≡◌, refl, arith,
  All, Bool-cases, inl, inr, subst,
}
use hours_x.Channels.{ChannelReply, Replies}
use hours_x.Channels.Dispatch.{find_reply, update_reply, matched}

abbrev pub ids : Replies → List String
ids [] = []
ids (r ∷ rs) = r.id ∷ ids rs

-- The primary key: no id occurs twice.
abbrev pub Distinct : List String → Type 0
Distinct [] = Unit
Distinct (x ∷ xs) = All (λ y. str_eq y x ≡ false) xs × Distinct xs

pub ids-update :
    (id : String) (p : ChannelReply → Bool) (f : ChannelReply → ChannelReply) (rs : Replies)
    → ((r : ChannelReply) → (f r).id ≡ r.id)
    → ids (update_reply id p f rs) ≡ ids rs
unfolding update_reply
ids-update id p f [] keeps = refl
ids-update id p f (r ∷ rs) keeps = ground (arith, keeps r, ids-update id p f rs keeps)

-- The row that an update makes of a row.
abbrev pub updated :
    String → (ChannelReply → Bool) → (ChannelReply → ChannelReply) → ChannelReply → ChannelReply
updated id p f r = if str_eq r.id id && p r then f r else r

pub find-update :
    (id j : String) (p : ChannelReply → Bool) (f : ChannelReply → ChannelReply) (rs : Replies)
    (r : ChannelReply)
    → ((x : ChannelReply) → (f x).id ≡ x.id)
    → find_reply id rs ≡ some r
    → find_reply id (update_reply j p f rs) ≡ some (updated j p f r)
unfolding find_reply update_reply
find-update id j p f [] r keeps e = cc
find-update id j p f (x ∷ xs) r keeps e =
    ground (arith, keeps x, find-update id j p f xs r keeps, eq_iff x.id id, eq_iff x.id j)

pub find-id :
    (id : String) (rs : Replies) (r : ChannelReply) → find_reply id rs ≡ some r → r.id ≡ id
unfolding find_reply
find-id id [] r e = cc
find-id id (x ∷ xs) r e = ground (arith, eq_iff x.id id, find-id id xs r)

matched_none :
    (id : String) (p : ChannelReply → Bool) (rs : Replies)
    → All (λ y. str_eq y id ≡ false) (ids rs)
    → matched id p rs ≡ 0
unfolding matched
matched_none id p [] h = refl
matched_none id p (r ∷ rs) h = ground (arith, matched_none id p rs h.1)

-- Under distinct ids an update counts the row that a look-up gives, if that passes the test.
pub matched_one :
    (id : String) (p : ChannelReply → Bool) (rs : Replies) (r : ChannelReply)
    → Distinct (ids rs)
    → find_reply id rs ≡ some r
    → matched id p rs ≡ (if p r then 1 else 0)
unfolding matched find_reply
matched_one id p [] r d e = cc
matched_one id p (x ∷ xs) r d e = elim (Bool-cases (str_eq x.id id)) [
  | inl same ↦
      let key : x.id ≡ id = (eq_iff x.id id).0 same in
      let rest =
        matched_none id p xs (subst (λ k. All (λ y. str_eq y k ≡ false) (ids xs)) key d.0) in
      ground (arith, rest)
  | inr other ↦ ground (arith, matched_one id p xs r d.1)
]
