-- ===== src/Event/Dispatch/Examples.antt =====
-- Examples of handlers: one that accepts the event, one that fails.
use apixis.Base.{String, true, false, [], none, refl}
use apixis.Event.Handler.{
  ApixEvent, ApixEventHandler, EventHandlerFunc, workflow, returned, failed, exception, execute,
}
use apixis.Event.Handler.Laws.{IsBehaved}
use apixis.Event.Handler.Execute.{Executed, execute-Executed}

abbrev accepting : EventHandlerFunc
accepting e = (record e { accepted = true }, returned)

abbrev failing : EventHandlerFunc
failing e = (e, failed (exception 7))

abbrev handler : String → EventHandlerFunc → ApixEventHandler
handler name f = record {
  name = name;
  core_func = f;
  on_accepted = none;
  on_has_error = none;
  on_error = none;
  on_cancelled = none;
  stop_when_error = false;
  background = false;
}

abbrev order : ApixEvent
order = record {
  event_id = 1;
  event_type = workflow;
  event_name = "order.new";
  context = 0;
  accepted = false;
  seen = [];
  error_stack = [];
}

failing-IsBehaved : IsBehaved (handler "second" failing)
failing-IsBehaved = record {
  core = record { seen = λ e. refl; errors = λ e. refl; accepted = λ e h. h };
  has_error = tt;
  accepted = tt;
  error = tt;
}

execute_example :
    Executed (handler "second" failing) accepting order (execute (handler "second" failing) order)
execute_example = execute-Executed (handler "second" failing) failing-IsBehaved accepting order
