-- ===== src/Event/Waiter/Examples.antt =====
-- A waiter with a deadline that stores an event and is left.
use apixis.Base.{false, List, [], ◌∷◌, some, raise, runtime_error, if◌then◌else◌, ◌≡◌}
use apixis.Base.Int.{pos}
use apixis.Event.Handler.{ApixEvent, workflow}
use apixis.Event.Waiter.{new_waiter, start_timeout, told, wait}
use apixis.Event.Waiter.First.{
  Operation, receives, ticks, stops_waiting, run, first_outcome, has_closed, deadline_of,
  run-first_outcome,
}

abbrev event : ApixEvent
event = record {
  event_id = 1;
  event_type = workflow;
  event_name = "reply";
  context = 0;
  accepted = false;
  seen = [];
  error_stack = [];
}

abbrev operations : List Operation
operations = ticks (pos 8) ∷ receives (pos 9) event ∷ stops_waiting ∷ receives (pos 11) event ∷ []

outcome_example :
    ((run operations (start_timeout (pos 5) (some (pos 6)) new_waiter)).future
      ≡ first_outcome (deadline_of (pos 5) (some (pos 6))) operations)
    × (wait (run operations (start_timeout (pos 5) (some (pos 6)) new_waiter)) ≡ (
        if has_closed operations
        then some (raise runtime_error)
        else told (first_outcome (deadline_of (pos 5) (some (pos 6))) operations)))
outcome_example = run-first_outcome (pos 5) (some (pos 6)) operations
