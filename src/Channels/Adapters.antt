-- ===== src/Channels/Adapters.antt =====
-- What the channel adapters of src/hoursx/channels share: the delivery of a message in chunks that the service
-- takes one at a time, and the reading of decoded JSON. A text that is sent is the list of its characters'
-- codes. What the service answers to the k-th request is a parameter.
pub mod Telegram
pub mod Whatsapp
pub mod Gmail
pub mod Mail
pub mod History
pub mod Split
pub mod Delivery
mod Tests
use Prim.Native.Char.{code}
use hours_x.Prelude.{
  ℕ, suc, ◌+◌, ◌-◌, List, [], ◌∷◌, ◌++◌, Bool, true, false, Option, none, some, String,
  if◌then◌else◌, str_eq, ◌==◌, leb, ltb, ◌||◌, length, take,
}
use hours_x.Prelude.Text.{decimal, contains_text}
use hours_x.Json.{
  Value, Items, Fields, null, num, text, arr, obj, nil, cons, find, is_text, is_present,
}

pub record ChannelCredentials : Type 0 where
  pub token : String
  pub secret : String
  pub account_id : String

-- Whether the message is delivered, and how many chunks the service took.
pub record DeliveryResult : Type 0 where
  pub ok : Bool
  pub sent : ℕ

-- The status of an answer and its description; `none` is a service that cannot be reached.
pub record Response : Type 0 where
  pub status : ℕ
  pub description : String

abbrev pub Text : Type 0
Text = List ℕ

unfoldable pub codes : String → Text
codes String.[] = []
codes (String.◌∷◌ c s) = code c ∷ codes s

abbrev pub empty_response : Text
empty_response = codes "(empty response)"

-- `text or "(empty response)"`.
abbrev pub or_empty_response : Text → Text
or_empty_response [] = empty_response
or_empty_response (c ∷ cs) = c ∷ cs

-- The requests of a message in chunks, and its result: it ends with the first that fails.
module _ {Request : Type 0} (post : ℕ → Request → Option Response)
    (accepted : Response → Bool) where
  abbrev pub on_response :
      ℕ → Option Response → DeliveryResult × List Request → DeliveryResult × List Request
  on_response sent none later = (record { ok = false; sent = sent }, [])
  on_response sent (some response) later =
      if accepted response then later else (record { ok = false; sent = sent }, [])

  unfoldable pub post_all : ℕ → List Request → DeliveryResult × List Request
  post_all sent [] = (record { ok = true; sent = sent }, [])
  post_all sent (r ∷ rs) =
      let (result, later) = on_response sent (post sent r) (post_all (suc sent) rs) in
      (result, r ∷ later)

-- `key in v`, for a text `key`; `none` is the TypeError of a value that has no members.
abbrev pub has_text : String → Items → Bool
has_text key nil = false
has_text key (cons v vs) = is_text key v || has_text key vs

abbrev pub member : String → Value → Option Bool
member key (obj fs) = some (is_present (find key fs))
member key (text s) = some (contains_text key s)
member key (arr vs) = some (has_text key vs)
member key v = none

-- `str(v)`; `repr` is Python's text of what is neither a text nor a natural number.
abbrev pub str_of : (Value → String) → Value → String
str_of repr (text s) = s
str_of repr (num n) = decimal n
str_of repr v = repr v
