-- ===== src/Channels/Adapters/Delivery.antt =====
-- What is delivered when an adapter sends a message in chunks: `send` of src/hoursx/channels/telegram.py and
-- whatsapp.py.
use hours_x.Prelude.{
  ℕ, suc, ◌+◌, List, [], ◌∷◌, ◌++◌, Bool, true, false, ◌&&◌, Option, none, some, str_eq, length,
  ◌≡◌, refl, ap, ◌∙◌, arith, Bool-cases, inl, inr,
}
use hours_x.Channels.{OutboundMessage}
use hours_x.Channels.Adapters.{ChannelCredentials, DeliveryResult, Response, on_response, post_all}
use hours_x.Channels.Adapters.Telegram
use hours_x.Channels.Adapters.Whatsapp

module _ {Request : Type 0} (post : ℕ → Request → Option Response)
    (accepted : Response → Bool) where
  abbrev takes : Option Response → Bool
  takes none = false
  takes (some response) = accepted response

  -- The service takes each of the requests, of which the first is its k-th.
  abbrev pub all_taken : ℕ → List Request → Bool
  all_taken k [] = true
  all_taken k (r ∷ rs) = takes (post k r) && all_taken (suc k) rs

  -- Either the service took all the requests, and all were made, or it took the first ones and refused the
  -- next, which was the last that was made.
  abbrev pub Ends : Bool → ℕ → List Request → ℕ → List Request → Type 0
  Ends true k rs sent made = (made ≡ rs) × (all_taken k rs ≡ true) × (sent ≡ k + length rs)
  Ends false k rs sent made =
      (taken rest : List Request) × (refused : Request) × (rs ≡ taken ++ refused ∷ rest)
      × (made ≡ taken ++ refused ∷ [])
      × (all_taken k taken ≡ true)
      × (takes (post (k + length taken) refused) ≡ false)
      × (sent ≡ k + length taken)

  abbrev pub Outcome : ℕ → List Request → DeliveryResult → List Request → Type 0
  Outcome k rs result made = Ends result.ok k rs result.sent made

  refused_first :
      (k : ℕ) (r : Request) (rs : List Request)
      → takes (post k r) ≡ false
      → Outcome k (r ∷ rs) (record { ok = false; sent = k }) (r ∷ [])
  refused_first k r rs h =
      ([], rs, r, refl, refl, refl, ap (λ n. takes (post n r)) (omega arith) ∙ h, omega arith)

  then_Ends :
      (ok : Bool) (k : ℕ) (r : Request) (rs made : List Request) (sent : ℕ)
      → takes (post k r) ≡ true
      → Ends ok (suc k) rs sent made
      → Ends ok k (r ∷ rs) sent (r ∷ made)
  then_Ends true k r rs made sent h (e, f, g) = (ap (λ t. r ∷ t) e, rw (h, f), omega (arith, g))
  then_Ends false k r rs made sent h (taken, rest, refused, e, f, g, untaken, n) = (
    r ∷ taken,
    rest,
    refused,
    ap (λ t. r ∷ t) e,
    ap (λ t. r ∷ t) f,
    rw (h, g),
    ap (λ m. takes (post m refused)) (omega arith) ∙ untaken,
    omega (arith, n),
  )

  on_response-Outcome :
      (k : ℕ) (r : Request) (rs : List Request) (later : DeliveryResult × List Request)
      (answer : Option Response)
      → post k r ≡ answer
      → Outcome (suc k) rs later.0 later.1
      → Outcome k
          (r ∷ rs)
          (on_response post accepted k answer later).0
          (r ∷ (on_response post accepted k answer later).1)
  on_response-Outcome k r rs later none e o = refused_first k r rs (ap takes e)
  on_response-Outcome k r rs later (some response) e o = elim (Bool-cases (accepted response)) [
    | inl g ↦ rw g (then_Ends later.0.ok k r rs later.1 later.0.sent (ap takes e ∙ g) o)
    | inr g ↦ rw g (refused_first k r rs (ap takes e ∙ g))
  ]

  post_all-Outcome :
      (k : ℕ) (rs : List Request)
      → Outcome k rs (post_all post accepted k rs).0 (post_all post accepted k rs).1
  unfolding post_all
  post_all-Outcome k [] = (refl, refl, omega arith)
  post_all-Outcome k (r ∷ rs) =
      on_response-Outcome k r rs (post_all post accepted (suc k) rs) (post k r) refl
        (post_all-Outcome (suc k) rs)

-- With its credentials configured, an adapter that is asked to deliver a message sends the requests of the
-- message's chunks in order, and the result is a success where the service took each of them; at the first
-- that it refuses, or that does not reach it, the adapter stops and fails, with the chunks before delivered.
pub send-Outcome :
    (post : ℕ → Telegram.Request → Option Response) (post' : ℕ → Whatsapp.Request → Option Response)
    (credentials : ChannelCredentials) (m : OutboundMessage)
    → str_eq credentials.token "" ≡ false
    → str_eq credentials.account_id "" ≡ false
    → Outcome post Telegram.accepted 0
        (Telegram.requests_of m)
        (Telegram.send post credentials m).0
        (Telegram.send post credentials m).1
      × Outcome post' Whatsapp.accepted 0
          (Whatsapp.requests_of m)
          (Whatsapp.send post' credentials m).0
          (Whatsapp.send post' credentials m).1
unfolding Telegram.send Whatsapp.send
send-Outcome post post' credentials m h g = (
  rw h (post_all-Outcome post Telegram.accepted 0 (Telegram.requests_of m)),
  rw (h, g) (post_all-Outcome post' Whatsapp.accepted 0 (Whatsapp.requests_of m)),
)
