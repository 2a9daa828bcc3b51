-- ===== src/Events/Spec.antt =====
-- What a subscriber of the bus of src/hoursx/events.py is promised, and that it gets it.
use hours_x.Prelude.{
  ℕ, zero, suc, ◌+◌, ◌-◌, ◌≤◌, max, List, [], ◌∷◌, ◌++◌, true, false, Option, some, String,
  if◌then◌else◌, leb, ltb, ◌==◌, str_eq, length, drop, length-append, length-drop, drop_all, ◌≡◌,
  refl, sym, ap, ◌∙◌, arith, Bool-cases, inl, inr, All,
}
use hours_x.Events.{
  Event, queue_limit, Subscriber, EventBus, drop_oldest, put, offer, publish, subscribe,
  unsubscribe, queue_of, head, take_one, next_of, get,
}

pub data Action : Type 0 where
  publishes : Event → Action
  gets : ℕ → Action
  subscribes : ℕ → String → Action
  leaves : ℕ → Action

-- What the subscriber of this id receives, in order.
unfoldable pub received : ℕ → List Action → EventBus → List (Option Event)
received id [] bus = []
received id (publishes e ∷ xs) bus = received id xs (publish e bus)
received id (gets k ∷ xs) bus =
    let (e, after) = get k bus in
    let rest = received id xs after in if k == id then e ∷ rest else rest
received id (subscribes k w ∷ xs) bus = received id xs (subscribe k w bus)
received id (leaves k ∷ xs) bus = received id xs (unsubscribe k bus)

-- The promise: the events of the subscriber's workspace are a log, of which it reads the next one,
-- but never one that is older than the last `queue_limit` of them.
unfoldable pub promised : ℕ → String → List Action → List Event → ℕ → List (Option Event)
promised id w [] log at_event = []
promised id w (publishes e ∷ xs) log at_event =
    let after = log ++ e ∷ [] in
    let kept = promised id w xs after (max at_event (length after - queue_limit)) in
    let rest = promised id w xs log at_event in if str_eq w e.workspace_id then kept else rest
promised id w (gets k ∷ xs) log at_event =
    let more =
      promised id w xs log (if ltb at_event (length log) then suc at_event else at_event) in
    let rest = promised id w xs log at_event in
    if k == id then head (drop at_event log) ∷ more else rest
promised id w (subscribes k v ∷ xs) log at_event = promised id w xs log at_event
promised id w (leaves k ∷ xs) log at_event = promised id w xs log at_event

-- The subscriber of this id stays, and no other takes its id.
abbrev pub Stays : ℕ → Action → Type 0
Stays id (publishes e) = Unit
Stays id (gets k) = Unit
Stays id (subscribes k w) = (k == id) ≡ false
Stays id (leaves k) = (k == id) ≡ false

drop-append : (n : ℕ) (xs ys : List Event) → n ≤ length xs → drop n (xs ++ ys) ≡ drop n xs ++ ys
drop-append zero xs ys h = refl
drop-append (suc n) [] ys h = absurd (omega (arith, h))
drop-append (suc n) (x ∷ xs) ys h = drop-append n xs ys (omega (arith, h))

drop_oldest-drop : (n : ℕ) (xs : List Event) → drop_oldest (drop n xs) ≡ drop (suc n) xs
drop_oldest-drop zero [] = refl
drop_oldest-drop zero (x ∷ xs) = refl
drop_oldest-drop (suc n) [] = refl
drop_oldest-drop (suc n) (x ∷ xs) = drop_oldest-drop n xs

-- The queue holds what is unread of the log.
abbrev Unread : List Event → ℕ → List Event → Type 0
Unread log n queue = (queue ≡ drop n log) × (n ≤ length log) × (length log ≤ n + queue_limit)

put-Unread :
    (log : List Event) (n : ℕ) (queue : List Event) (e : Event)
    → Unread log n queue
    → let after = log ++ e ∷ [] in Unread after (max n (length after - queue_limit)) (put e queue)
put-Unread log n queue e (q, le, room) =
    let after = log ++ e ∷ [] in
    let long : length after ≡ suc (length log) = omega (arith, length-append log (e ∷ [])) in
    let size : length queue ≡ length log - n = ap length q ∙ length-drop n log in
    elim (Bool-cases (leb queue_limit (length queue))) [
      | inl full ↦
          let next : max n (length after - queue_limit) ≡ suc n =
            ground (arith, long, size, full, le, room) in
          let more : suc n ≤ length log = ground (arith, size, full) in
          rw (full, next)
            (
              ap (λ x. drop_oldest x ++ e ∷ []) q
                  ∙ ap (λ x. x ++ e ∷ []) (drop_oldest-drop n log)
                  ∙ sym (drop-append (suc n) log (e ∷ []) more),
              omega (arith, long, more),
              omega (arith, long, room),
            )
      | inr spare ↦
          let next : max n (length after - queue_limit) ≡ n =
            ground (arith, long, size, spare, le, room) in
          rw (spare, next)
            (
              ap (λ x. x ++ e ∷ []) q ∙ sym (drop-append n log (e ∷ []) le),
              omega (arith, long, le),
              ground (arith, long, size, spare, le),
            )
    ]

drop_oldest-Unread :
    (log : List Event) (n : ℕ) (queue : List Event)
    → Unread log n queue
    → Unread log (if ltb n (length log) then suc n else n) (drop_oldest queue)
drop_oldest-Unread log n queue (q, le, room) = elim (Bool-cases (ltb n (length log))) [
  | inl more ↦
      rw more (ap drop_oldest q ∙ drop_oldest-drop n log, ground (arith, more), omega (arith, room))
  | inr read ↦
      let end : length log ≤ n = ground (arith, read) in
      rw read (ap drop_oldest (q ∙ drop_all n log end) ∙ sym (drop_all n log end), le, room)
]

module _ (id : ℕ) where
  queue_of-publish :
      (e : Event) (bus : EventBus) (s : Subscriber)
      → queue_of id bus ≡ some s
      → queue_of id (publish e bus) ≡ some (offer e s)
  unfolding queue_of publish
  queue_of-publish e [] s h = cc
  queue_of-publish e (x ∷ bus) s h = elim (Bool-cases (str_eq x.workspace_id e.workspace_id)) [
    | inl there ↦ ground (arith, there, queue_of-publish e bus s)
    | inr apart ↦ ground (arith, apart, queue_of-publish e bus s)
  ]

  queue_of-take_one :
      (bus : EventBus) (s : Subscriber)
      → queue_of id bus ≡ some s
      → queue_of id (take_one id bus) ≡ some (record s { queue = drop_oldest s.queue })
  unfolding queue_of take_one
  queue_of-take_one [] s h = cc
  queue_of-take_one (x ∷ bus) s h = ground (arith, queue_of-take_one bus s)

  queue_of-take_other :
      (k : ℕ) (bus : EventBus) → (k == id) ≡ false → queue_of id (take_one k bus) ≡ queue_of id bus
  unfolding queue_of take_one
  queue_of-take_other k [] h = refl
  queue_of-take_other k (x ∷ bus) h = ground (arith, queue_of-take_other k bus h)

  queue_of-unsubscribe :
      (k : ℕ) (bus : EventBus)
      → (k == id) ≡ false
      → queue_of id (unsubscribe k bus) ≡ queue_of id bus
  unfolding queue_of unsubscribe
  queue_of-unsubscribe k [] h = refl
  queue_of-unsubscribe k (x ∷ bus) h = ground (arith, queue_of-unsubscribe k bus h)

  queue_of-subscribe :
      (k : ℕ) (v : String) (bus : EventBus)
      → (k == id) ≡ false
      → queue_of id (subscribe k v bus) ≡ queue_of id bus
  unfolding queue_of subscribe
  queue_of-subscribe k v bus h = rw h refl

  queue_of-subscribe_own :
      (w : String) (bus : EventBus)
      → queue_of id (subscribe id w bus) ≡ some (record { id = id; workspace_id = w; queue = [] })
  unfolding queue_of subscribe
  queue_of-subscribe_own w bus = let own : (id == id) ≡ true = ground arith in rw own refl

  module _ (w : String) where
    received-promised :
        (xs : List Action) (bus : EventBus) (s : Subscriber) (log : List Event) (n : ℕ)
        → All (Stays id) xs
        → queue_of id bus ≡ some s
        → s.workspace_id ≡ w
        → Unread log n s.queue
        → received id xs bus ≡ promised id w xs log n
    unfolding received promised get
    received-promised [] bus s log n stays h own u = refl
    received-promised (publishes e ∷ xs) bus s log n (_, stays) h own u =
        let here = queue_of-publish e bus s h in
        elim (Bool-cases (str_eq w e.workspace_id)) [
          | inl ours ↦
              let mine : str_eq s.workspace_id e.workspace_id ≡ true = rw own ours in
              rw ours (
                received-promised xs (publish e bus) (record s { queue = put e s.queue }) _ _ stays
                  (rw mine at here) own (put-Unread log n s.queue e u))
          | inr other ↦
              let not_mine : str_eq s.workspace_id e.workspace_id ≡ false = rw own other in
              rw other
                (received-promised xs (publish e bus) s log n stays (rw not_mine at here) own u)
        ]
    received-promised (gets k ∷ xs) bus s log n (_, stays) h own u = elim (Bool-cases (k == id)) [
      | inr other ↦ rw other (
          received-promised xs (take_one k bus) s log n stays (queue_of-take_other k bus other ∙ h)
            own u)
      | inl mine ↦
          let same : k ≡ id = ground (arith, mine) in
          let first : next_of (queue_of k bus) ≡ head (drop n log) =
            ap (λ j. next_of (queue_of j bus)) same ∙ ap next_of h ∙ ap head u.0 in
          let rest =
            received-promised xs (take_one id bus) (record s { queue = drop_oldest s.queue }) log _
              stays (queue_of-take_one bus s h) own (drop_oldest-Unread log n s.queue u) in
          rw mine (
            ap (λ x. x ∷ received id xs (take_one k bus)) first
            ∙ ap (λ t. head (drop n log) ∷ t)
                (ap (λ j. received id xs (take_one j bus)) same ∙ rest))
    ]
    received-promised (subscribes k v ∷ xs) bus s log n (other, stays) h own u =
        received-promised xs (subscribe k v bus) s log n stays
          (queue_of-subscribe k v bus other ∙ h) own u
    received-promised (leaves k ∷ xs) bus s log n (other, stays) h own u =
        received-promised xs (unsubscribe k bus) s log n stays
          (queue_of-unsubscribe k bus other ∙ h) own u

    -- From its subscription on, and for as long as it stays, a subscriber gets exactly what is promised:
    -- whatever happens on the bus, and whoever else subscribes, reads or leaves, each `get` gives the
    -- next event of its own workspace since the subscription, in the order of publication and each
    -- once, save those that 512 newer ones or more had followed unread, and nothing of any other workspace.
    pub received_as_promised :
        (xs : List Action) (bus : EventBus)
        → All (Stays id) xs
        → received id xs (subscribe id w bus) ≡ promised id w xs [] 0
    received_as_promised xs bus stays =
        received-promised xs (subscribe id w bus) _ [] 0 stays (queue_of-subscribe_own w bus) refl
          (refl, omega arith, omega arith)
