-- ===== src/Events.antt =====
-- The event bus of one process: `EventBus` of src/hoursx/events.py. The subscribers of all workspaces
-- stand in one list; an event's payload and time are left out, and the Redis bus.
pub mod Spec
mod Tests
use hours_x.Prelude.{
  ℕ, List, [], ◌∷◌, ◌++◌, Bool, true, false, Option, none, some, String, if◌then◌else◌, leb, ◌==◌,
  not, str_eq, length, map, keep_if,
}

pub data EventType : Type 0 where
  run_started run_delta run_step run_awaiting_approval run_finished approval_decided : EventType
  change_applied change_verified change_reverted document_ingested schedule_fired : EventType

pub record Event : Type 0 where
  pub type : EventType
  pub workspace_id : String
  pub session_id : Option String
  pub run_id : Option String

abbrev pub queue_limit : ℕ
queue_limit = 512

pub record Subscriber : Type 0 where
  pub id : ℕ
  pub workspace_id : String
  pub queue : List Event

abbrev pub EventBus : Type 0
EventBus = List Subscriber

-- `get_nowait` with its QueueEmpty suppressed.
abbrev pub drop_oldest : List Event → List Event
drop_oldest [] = []
drop_oldest (e ∷ es) = es

abbrev pub put : Event → List Event → List Event
put e queue = (if leb queue_limit (length queue) then drop_oldest queue else queue) ++ e ∷ []

abbrev pub offer : Event → Subscriber → Subscriber
offer e s = if str_eq s.workspace_id e.workspace_id then record s { queue = put e s.queue } else s

unfoldable pub publish : Event → EventBus → EventBus
publish e [] = []
publish e (s ∷ bus) = offer e s ∷ publish e bus

unfoldable pub subscribe : ℕ → String → EventBus → EventBus
subscribe id workspace_id bus = record { id = id; workspace_id = workspace_id; queue = [] } ∷ bus

-- The consumer has disconnected.
unfoldable pub unsubscribe : ℕ → EventBus → EventBus
unsubscribe id [] = []
unsubscribe id (s ∷ bus) = if s.id == id then unsubscribe id bus else s ∷ unsubscribe id bus

unfoldable pub queue_of : ℕ → EventBus → Option Subscriber
queue_of id [] = none
queue_of id (s ∷ bus) = if s.id == id then some s else queue_of id bus

abbrev pub head : List Event → Option Event
head [] = none
head (e ∷ es) = some e

unfoldable pub take_one : ℕ → EventBus → EventBus
take_one id [] = []
take_one id (s ∷ bus) =
    if s.id == id then record s { queue = drop_oldest s.queue } ∷ bus else s ∷ take_one id bus

-- What the consumer's `get` gives, if there is an event; otherwise it goes on waiting.
abbrev pub next_of : Option Subscriber → Option Event
next_of none = none
next_of (some s) = head s.queue

unfoldable pub get : ℕ → EventBus → Option Event × EventBus
get id bus = (next_of (queue_of id bus), take_one id bus)
