-- ===== src/Event/Loop.antt =====
-- The consumer of source/apixis/core/event/event_loop.py, with the pipe that it empties, the handler
-- registry that it asks, the permits that its dispatches hold, and the names that
-- source/apixis/core/event/event_registry.py observes. The consumer waits at two places only: for an
-- event, and for a permit with the event in `_pending_dispatch`. A cancelled consumer ends at one of
-- them and changes nothing else, so the cancellation is part of `stop`.
pub mod Steps
pub mod Invariant
pub mod Turns
pub mod Account
pub mod Faithful
pub mod Capture
pub mod Drain
mod Examples
use apixis.Base.{
  ℕ, ◌+◌, String, Bool, true, false, not, List, [], ◌∷◌, ◌++◌, Option, none, some, Result, ok,
  raise, ◌>>=◌, value_error, eqb, ltb, if◌then◌else◌, ◌==◌, string_eq, contains, is_some,
}
use apixis.Event.Handler.{ApixEvent, EventType, internal, workflow, lifecycle, info, warning, error}
use apixis.Event.Registry.{Registry, Handler}
use apixis.Event.Registry.Register.{get_handlers_for_event}
use apixis.Event.Permits.{Semaphore, HandlerChainToken, acquired, fresh, finish}
use apixis.Event.Permits.Steps.{System}
use apixis.Event.Pipe.{Channel, get, task_done, put}

abbrev is_internal : EventType → Bool
is_internal internal = true
is_internal _ = false

-- `ApixEventRegistry.record_event` on an event
unfoldable pub record_event : ApixEvent → List String → Result (List String)
record_event e names =
    if is_internal e.event_type
    then ok names
    else if e.event_name == ""
    then raise value_error
    else ok (if contains e.event_name names then names else names ++ e.event_name ∷ [])

-- `_pending_dispatch`
pub record Captured : Type 0 where
  pub event : ApixEvent
  pub handlers : List Handler

-- Where the consumer waits.
pub data Position : Type 0 where
  getting acquiring : Position

pub record Consumer : Type 0 where
  pub task : ℕ
  pub position : Position

-- The last five fields are histories, which the code does not keep: the events put, those whose fate
-- the consumer has decided, and of these those that were dispatched, with their handlers, those whose
-- handlers could not be resolved, and those whose dispatch could not be prepared.
pub record EventLoop : Type 0 where
  pub channel : Channel ApixEvent
  pub registry : Registry
  pub event_registry : List String
  pub permits : System
  pub consumer : Option Consumer
  pub started : Bool
  pub pending : Option Captured
  pub posted : List ApixEvent
  pub decided : List ApixEvent
  pub dispatched : List Captured
  pub unresolved : List ApixEvent
  pub unprepared : List ApixEvent

abbrev pub idle : Channel ApixEvent → Registry → System → EventLoop
idle channel registry permits = record {
  channel = channel;
  registry = registry;
  event_registry = [];
  permits = permits;
  consumer = none;
  started = false;
  pending = none;
  posted = [];
  decided = [];
  dispatched = [];
  unresolved = [];
  unprepared = [];
}

-- The consumer's first wait, with what an earlier one has left.
abbrev pub entry_position : Option Captured → Position
entry_position none = getting
entry_position (some p) = acquiring

-- `start`, where `task` is the new task.
unfoldable pub start : ℕ → EventLoop → EventLoop
start task l = if l.started then l else record l {
  consumer = some (record { task = task; position = entry_position l.pending });
  started = true;
}

unfoldable pub stop : EventLoop → EventLoop
stop l = record l { consumer = none; started = false }

abbrev is_task : ℕ → Option Consumer → Bool
is_task task none = false
is_task task (some c) = eqb c.task task

-- `_on_consumer_done`, for the consumer of that task.
unfoldable pub on_consumer_done : ℕ → EventLoop → EventLoop
on_consumer_done task l =
    if is_task task l.consumer then record l { consumer = none; started = false } else l

-- `put` of an event; it waits on a full channel.
abbrev pub posted_to : ApixEvent → EventLoop → Option (Channel ApixEvent) → Option EventLoop
posted_to e l none = none
posted_to e l (some ch) = some (record l { channel = ch; posted = l.posted ++ e ∷ [] })

unfoldable pub post : ApixEvent → EventLoop → Option EventLoop
unfolding put
post e l = posted_to e l (put e l.channel)

-- The handlers of a dequeued event; an event without a name has none.
unfoldable pub resolve_handlers : ApixEvent → Registry → Registry × Result (List Handler)
unfolding get_handlers_for_event
resolve_handlers e r =
    if e.event_name == "" then (r, ok []) else get_handlers_for_event r e.event_name

-- An exception of `task_done` would end the consumer.
abbrev pub acknowledged_as : EventLoop → Result (Channel ApixEvent) → EventLoop
acknowledged_as l (raise x) = record l { consumer = none; started = false }
acknowledged_as l (ok ch) = record l { channel = ch }

abbrev pub acknowledged : EventLoop → EventLoop
acknowledged l = acknowledged_as l (task_done l.channel)

abbrev pub at_acquiring : Option Consumer → Option Consumer
at_acquiring none = none
at_acquiring (some c) = some (record c { position = acquiring })

abbrev pub at_getting : Option Consumer → Option Consumer
at_getting none = none
at_getting (some c) = some (record c { position = getting })

-- The event is kept with its handlers, or acknowledged and dropped if they cannot be resolved.
abbrev pub captured : ApixEvent → EventLoop → Result (List Handler) → EventLoop
captured e l (ok handlers) = record l {
  pending = some (record { event = e; handlers = handlers });
  consumer = at_acquiring l.consumer;
}
captured e l (raise x) =
    acknowledged (record l { decided = l.decided ++ e ∷ []; unresolved = l.unresolved ++ e ∷ [] })

abbrev pub position_of : Option Consumer → Option Position
position_of none = none
position_of (some c) = some c.position

abbrev taken : EventLoop → Option (ApixEvent × Channel ApixEvent) → Option EventLoop
taken l none = none
taken l (some (e, ch)) =
    let (r, handlers) = resolve_handlers e l.registry in
    some (captured e (record l { channel = ch; registry = r }) handlers)

abbrev when_getting : EventLoop → Option Position → Option EventLoop
when_getting l (some getting) = taken l (get l.channel)
when_getting l _ = none

-- The consumer's turn after `get`, up to its next wait; `none` where it cannot run.
unfoldable pub take : EventLoop → Option EventLoop
unfolding resolve_handlers get task_done
take l = when_getting l (position_of l.consumer)

-- The dispatch of the pending event is prepared: the name is observed and the task created, which
-- may fail. The permit goes to the dispatch, or straight back.
abbrev pub launched : Bool → Captured → EventLoop → Result (List String) → EventLoop
launched true p l (ok names) = acknowledged (record l {
  event_registry = names;
  permits = record { semaphore = acquired l.permits.semaphore; tokens = fresh ∷ l.permits.tokens };
  dispatched = l.dispatched ++ p ∷ [];
})
launched false p l (ok names) =
    acknowledged (record l { event_registry = names; unprepared = l.unprepared ++ p.event ∷ [] })
launched created p l (raise x) =
    acknowledged (record l { unprepared = l.unprepared ++ p.event ∷ [] })

abbrev observed : ApixEvent → List String → Result (List String)
observed e names = if e.event_name == "" then ok names else record_event e names

abbrev pub cleared : Captured → EventLoop → EventLoop
cleared p l = record l {
  pending = none;
  consumer = at_getting l.consumer;
  decided = l.decided ++ p.event ∷ [];
}

abbrev launched_from : Bool → EventLoop → Option Captured → Option EventLoop
launched_from created l none = none
launched_from created l (some p) =
    some (launched created p (cleared p l) (observed p.event l.event_registry))

abbrev when_acquiring : Bool → EventLoop → Option Position → Option EventLoop
when_acquiring created l (some acquiring) =
    if ltb 0 l.permits.semaphore.value then launched_from created l l.pending else none
when_acquiring created l _ = none

-- The consumer's turn after the permit, where `created` tells whether the task could be created.
unfoldable pub dispatch : Bool → EventLoop → Option EventLoop
unfolding record_event task_done
dispatch created l = when_acquiring created l (position_of l.consumer)
