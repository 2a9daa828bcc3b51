-- ===== src/Events/Tests.antt =====
-- Two workspaces on one bus.
use hours_x.Prelude.{List, [], ◌∷◌, none, some, String, ◌≡◌, refl}
use hours_x.Events.{Event, run_started, subscribe}
use hours_x.Events.Spec.{
  Action, publishes, gets, subscribes, leaves, received, promised, received_as_promised,
}

abbrev event_of : String → String → Event
event_of w r = record { type = run_started; workspace_id = w; session_id = none; run_id = some r }

abbrev actions : List Action
actions =
    publishes (event_of "w" "r1")
    ∷ subscribes 8 "v"
    ∷ publishes (event_of "v" "r2")
    ∷ publishes (event_of "w" "r3")
    ∷ gets 7
    ∷ gets 8
    ∷ leaves 8
    ∷ gets 7
    ∷ gets 7
    ∷ []

received_as_promised_example : received 7 actions (subscribe 7 "w" []) ≡ promised 7 "w" actions [] 0
received_as_promised_example =
    received_as_promised 7 "w" actions []
      (tt, (refl, (tt, (tt, (tt, (tt, (refl, (tt, (tt, tt)))))))))

promised-actions :
    promised 7 "w" actions [] 0 ≡ some (event_of "w" "r1") ∷ some (event_of "w" "r3") ∷ none ∷ []
unfolding promised
promised-actions = refl
