-- ===== src/Event/Dispatch.antt =====
-- `_dispatch_event` and the handlers that it starts (source/apixis/core/event/event_loop.py).
-- A background handler is started as a task of its own, which the dispatch does not wait for: the
-- model keeps the list of those started. What they do to the shared event is not part of it.
pub mod Follows
pub mod Laws
mod Examples
use apixis.Base.{
  String, Bool, true, false, List, [], ◌∷◌, ◌++◌, Option, none, some, if◌then◌else◌, ◌==◌,
  string_eq,
}
use apixis.Event.Handler.{
  ApixEvent, ApixEventHandler, Outcome, returned, failed, cancelled, exception, execute, Failure,
}
use apixis.Event.Handler.Notify.{notify_cancelled}

pub record Dispatch : Type 0 where
  pub event : ApixEvent
  pub started : List ApixEventHandler
  pub outcome : Outcome

-- `_execute_handler`: an exception is logged, a cancellation is not caught.
abbrev pub logged : ApixEvent × Outcome → ApixEvent × Outcome
logged (e, failed (exception x)) = (e, returned)
logged (e, failed cancelled) = (e, failed cancelled)
logged (e, returned) = (e, returned)

pub execute_handler : ApixEventHandler → ApixEvent → ApixEvent × Outcome
execute_handler h e = logged (execute h e)

abbrev pub unless_failed : Outcome → Dispatch → (Failure → Dispatch) → Dispatch
unless_failed returned d f = d
unless_failed (failed x) d f = f x

-- The loop over the chain. It ends early only by a cancellation.
pub run_chain : List ApixEventHandler → ApixEvent → List ApixEventHandler → Dispatch
run_chain [] e started = record { event = e; started = started; outcome = returned }
run_chain (h ∷ hs) e started =
    let behind = run_chain hs e (started ++ h ∷ []) in
    let here =
      unless_failed (execute_handler h e).1 (run_chain hs (execute_handler h e).0 started)
        (λ x. record { event = (execute_handler h e).0; started = started; outcome = failed x }) in
    if h.background then behind else here

-- The foreground handlers of the chain are notified of the cancellation, in order.
pub notify_all : List ApixEventHandler → ApixEvent → ApixEvent
notify_all [] e = e
notify_all (h ∷ hs) e =
    notify_all hs (elim h.background [ true ↦ e | false ↦ notify_cancelled h e ])

pub dispatch_event : List ApixEventHandler → ApixEvent → Dispatch
dispatch_event chain e =
    if e.event_name == ""
    then record { event = e; started = []; outcome = returned }
    else let d = run_chain chain e [] in
      elim d.outcome [ returned ↦ d | failed x ↦ record d { event = notify_all chain d.event } ]

-- `_run_background_handler`: its own cancellation notifies it alone and is raised again.
pub run_background_handler : ApixEventHandler → ApixEvent → ApixEvent × Outcome
run_background_handler h e =
    let (e', outcome) = execute_handler h e in
    elim outcome [ returned ↦ (e', returned) | failed x ↦ (notify_cancelled h e', failed x) ]
