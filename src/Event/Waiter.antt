-- ===== src/Event/Waiter.antt =====
-- `EventWaiter` of source/apixis/core/event/subscription.py: one event, or the reason why there is none.
-- A time is an integer in a unit small enough for all times that occur.
pub mod First
mod Examples
use apixis.Base.{
  Bool, true, false, not, ◌&&◌, List, [], ◌∷◌, Option, none, some, Result, ok, raise, runtime_error,
  timeout_error, cancelled_error, if◌then◌else◌, is_some,
}
use apixis.Base.Int.{ℤ, ltb_ℤ, ◌+ℤ◌}
use apixis.Event.Handler.{ApixEvent}

pub data Future : Type 0 where
  pending timed_out cancelled : Future
  resolved : ApixEvent → Future

-- `timer` tells whether the timer at the deadline is active.
pub record EventWaiter : Type 0 where
  pub future : Future
  pub deadline : Option ℤ
  pub timer : Bool
  pub closed : Bool

abbrev pub new_waiter : EventWaiter
new_waiter = record { future = pending; deadline = none; timer = false; closed = false }

abbrev pub is_done : Future → Bool
is_done pending = false
is_done _ = true

-- `_start_timeout`
pub start_timeout : ℤ → Option ℤ → EventWaiter → EventWaiter
start_timeout now none w = w
start_timeout now (some time_out) w = record w { deadline = some (now +ℤ time_out); timer = true }

abbrev pub overdue : ℤ → Option ℤ → Bool
overdue now none = false
overdue now (some deadline) = not (ltb_ℤ now deadline)

-- `_expire`
unfoldable pub expire : EventWaiter → EventWaiter
expire w = if is_done w.future then w else record w { future = timed_out }

-- `_resolve`, which the handler of the waiter calls in each of its phases.
unfoldable pub resolve_waiter : ℤ → ApixEvent → EventWaiter → EventWaiter
unfolding expire
resolve_waiter now e w =
    if is_done w.future
    then w
    else if overdue now w.deadline
    then expire w
    else record w { timer = false; future = resolved e }

-- The timer, which the loop calls at the deadline or later.
unfoldable pub tick : ℤ → EventWaiter → EventWaiter
unfolding expire
tick now w = if w.timer && overdue now w.deadline then record (expire w) { timer = false } else w

-- `future.cancel()`; the cancellation of a task that waits does the same.
unfoldable pub cancel_future : EventWaiter → EventWaiter
cancel_future w = if is_done w.future then w else record w { future = cancelled }

-- `_close`
unfoldable pub close : EventWaiter → EventWaiter
unfolding cancel_future
close w = cancel_future (record w { closed = true; timer = false })

-- What awaiting the future gives, `none` while it is pending.
abbrev pub told : Future → Option (Result ApixEvent)
told pending = none
told timed_out = some (raise timeout_error)
told cancelled = some (raise cancelled_error)
told (resolved e) = some (ok e)

-- `wait`
unfoldable pub wait : EventWaiter → Option (Result ApixEvent)
wait w = if w.closed then some (raise runtime_error) else told w.future
