-- ===== src/Channels/Webhook/Acknowledged.antt =====
-- What an acknowledged webhook has done: `receive_webhook` of src/hoursx/api/routers/channels.py.
use hours_x.Prelude.{
  ℕ, List, [], ◌∷◌, Bool, true, false, Option, none, some, String, if◌then◌else◌, str_eq, ◌≡◌, ◌⊎◌,
  refl, Bool-cases, Option-cases, inl, inr,
}
use hours_x.Runs.Intake.{QuotaPolicy}
use hours_x.Channels.{
  ChannelKind, telegram, whatsapp, gmail, slack, webhook, InboundMessage, ChannelReply,
}
use hours_x.Channels.Inbound.{
  Database, ChannelTarget, Workspace, Delivery, RoutedRun, resolve_target, Failure, integrity_error,
  no_agent, no_member, session_missing, over_quota, Routed, ok, failed, handle_inbound, find_owed,
}
use hours_x.Channels.Inbound.Redelivery.{handle_inbound-owes}
use hours_x.Channels.Webhook.{
  Loaded, not_json, other, object, Channel, Ack, accepted, ignored, kind_of, World, messages_of,
  failure_ack, route_all, on_target, on_parsed, on_loaded, on_channel, on_kind, receive_webhook,
}

-- The two answers that a provider takes for a success.
abbrev pub is_ack : Ack → Bool
is_ack (accepted n) = true
is_ack ignored = true
is_ack _ = false

clash : {A : Type 0} {b : Bool} → b ≡ false → b ≡ true → A
clash no_ack ack = cc

Routed-cases :
    {A : Type 0} (x : Routed A)
    → ((a : A) × (db : Database) × (x ≡ ok a db))
      ⊎ ((e : Failure) × (db : Database) × (x ≡ failed e db))
Routed-cases (ok a db) = inl (a, db, refl)
Routed-cases (failed e db) = inr (e, db, refl)

module _ {P : Type 0} (digest : String → String) (policy : QuotaPolicy) (deliveries : ℕ → Delivery)
    (loads : String → Loaded P) where
  not_acked : (e : Failure) → is_ack (failure_ack digest policy deliveries loads e) ≡ false
  unfolding failure_ack
  not_acked no_agent = refl
  not_acked no_member = refl
  not_acked session_missing = refl
  not_acked integrity_error = refl
  not_acked (over_quota q) = refl

  -- The message has gone to a run, for which a reply is owed.
  abbrev pub Handled : ChannelTarget → InboundMessage → World → World → Type 0
  Handled target m w after =
      (out : RoutedRun) × (handle_inbound m target digest policy (deliveries 0) w.database
        ≡ ok out after.database)
      × (r : ChannelReply) × (find_owed out.run_id after.database.replies ≡ some r)

  one_routed :
      (target : ChannelTarget) (m : InboundMessage) (w : World)
      → is_ack (route_all digest policy deliveries loads target 0 0 (m ∷ []) w).0 ≡ true
      → Handled target m w (route_all digest policy deliveries loads target 0 0 (m ∷ []) w).1
  unfolding route_all
  one_routed target m w h =
      elim (Routed-cases (handle_inbound m target digest policy (deliveries 0) w.database)) [
        | inl (out, db, e) ↦
            let (r, owed) =
              handle_inbound-owes m target digest policy (deliveries 0) w.database db out e in
            rw (route_all, e) (out, refl, r, owed)
        | inr (e, db, f) ↦ clash (not_acked e) (rw (route_all, f) at h)
      ]

  target_acked :
      (kind : ChannelKind) (channel : Channel P) (m : InboundMessage) (w : World)
      (target : Option ChannelTarget)
      → is_ack (on_target digest policy deliveries loads kind channel m w target).0 ≡ true
      → (kind ≡ gmail)
        ⊎ ((t : ChannelTarget) × (target ≡ some t)
            × Handled t m w (on_target digest policy deliveries loads kind channel m w target).1)
  unfolding on_target messages_of
  target_acked kind channel m w none h = cc
  target_acked gmail channel m w (some t) h = inl refl
  target_acked telegram channel m w (some t) h = inr (t, refl, one_routed t m w h)
  target_acked whatsapp channel m w (some t) h = inr (t, refl, one_routed t m w h)
  target_acked slack channel m w (some t) h = inr (t, refl, one_routed t m w h)
  target_acked webhook channel m w (some t) h = inr (t, refl, one_routed t m w h)

  -- The payload holds no message, or it comes from Gmail, or its message is handled.
  abbrev pub Served :
      ChannelKind → Channel P → Option ChannelTarget → Loaded P → World → World → Type 0
  Served kind channel target not_json w after = ⊥
  Served kind channel target other w after = ⊥
  Served kind channel target (object payload) w after =
      (channel.parse payload ≡ none)
      ⊎ ((m : InboundMessage) × (channel.parse payload ≡ some m)
          × ((kind ≡ gmail) ⊎ ((t : ChannelTarget) × (target ≡ some t) × Handled t m w after)))

  loaded_acked :
      (kind : ChannelKind) (channel : Channel P) (target : Option ChannelTarget) (w : World)
      (loaded : Loaded P)
      → is_ack (on_loaded digest policy deliveries loads kind channel target w loaded).0 ≡ true
      → Served kind channel target loaded w
          (on_loaded digest policy deliveries loads kind channel target w loaded).1
  unfolding on_loaded on_parsed
  loaded_acked kind channel target w not_json h = cc
  loaded_acked kind channel target w other h = cc
  loaded_acked kind channel target w (object payload) h =
      elim (Option-cases (channel.parse payload)) [
        | inl e ↦ inl e
        | inr (m, e) ↦ inr (m, e, rw e (target_acked kind channel m w target (rw e at h)))
      ]

  channel_acked :
      (kind : ChannelKind) (body : String) (target : Option ChannelTarget) (w : World)
      (channel : Channel P)
      → is_ack (on_channel digest policy deliveries loads kind body target w (some channel)).0
        ≡ true
      → (channel.verify body ≡ true)
        × Served kind channel target
            (loads (if str_eq body "" then "{}" else body))
            w
            (on_channel digest policy deliveries loads kind body target w (some channel)).1
  unfolding on_channel
  channel_acked kind body target w channel h = elim (Bool-cases (channel.verify body)) [
    | inr forged ↦ clash refl (rw forged at h)
    | inl authentic ↦
        (authentic, rw authentic (loaded_acked kind channel target w _ (rw authentic at h)))
  ]

  kind_acked :
      (registry : ChannelKind → Option (Channel P)) (body : String) (target : Option ChannelTarget)
      (w : World) (kind : ChannelKind) (found : Option (Channel P))
      → registry kind ≡ found
      → is_ack (on_channel digest policy deliveries loads kind body target w found).0 ≡ true
      → (channel : Channel P) × (registry kind ≡ some channel)
        × (channel.verify body ≡ true)
        × Served kind channel target
            (loads (if str_eq body "" then "{}" else body))
            w
            (on_channel digest policy deliveries loads kind body target w found).1
  unfolding on_channel
  kind_acked registry body target w kind none e h = cc
  kind_acked registry body target w kind (some channel) e h =
      let (authentic, served) = channel_acked kind body target w channel h in
      (channel, e, authentic, served)

  -- A webhook is acknowledged only for a channel that is configured and a body that this channel
  -- verifies and that is a JSON object; and then the payload holds no message, or the channel is
  -- Gmail, which is acknowledged whatever becomes of its mail, or routing is configured and the message
  -- has gone to a run, for which a reply is owed.
  pub receive_webhook-Served :
      (registry : ChannelKind → Option (Channel P)) (slug agent_handle : String)
      (workspaces : List Workspace) (kind body : String) (w : World)
      → is_ack
          (receive_webhook digest policy deliveries loads registry slug agent_handle workspaces kind
            body w).0
        ≡ true
      → (k : ChannelKind) × (kind_of kind ≡ some k)
        × (channel : Channel P) × (registry k ≡ some channel)
        × (channel.verify body ≡ true)
        × Served k channel
            (resolve_target slug agent_handle workspaces)
            (loads (if str_eq body "" then "{}" else body))
            w
            (receive_webhook digest policy deliveries loads registry slug agent_handle workspaces
              kind body w).1
  unfolding receive_webhook on_kind
  receive_webhook-Served registry slug agent_handle workspaces kind body w h =
      elim (Option-cases (kind_of kind)) [
        | inl e ↦ clash refl (rw e at h)
        | inr (k, e) ↦
            let (channel, here, authentic, served) =
              kind_acked registry body (resolve_target slug agent_handle workspaces) w k
                (registry k) refl (rw e at h) in
            (k, e, channel, here, authentic, rw e served)
      ]
