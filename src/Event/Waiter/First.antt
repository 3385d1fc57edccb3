-- ===== src/Event/Waiter/First.antt =====
-- What a waiter tells and the first operation that decides it
-- (source/apixis/core/event/subscription.py).
use apixis.Base.{
  Bool, true, false, ◌||◌, List, [], ◌∷◌, Option, none, some, raise, runtime_error, if◌then◌else◌,
  if_cases, is_some, ◌≡◌, refl, ap, ◌∙◌, arith,
}
use apixis.Base.Int.{ℤ, ◌+ℤ◌}
use apixis.Event.Handler.{ApixEvent}
use apixis.Event.Waiter.{
  Future, pending, timed_out, cancelled, resolved, EventWaiter, new_waiter, is_done, start_timeout,
  overdue, expire, resolve_waiter, tick, cancel_future, close, told, wait,
}

-- What happens to a waiter: an event at a time, the timer at a time, a cancellation of a task that
-- waits, and the end of the context.
pub data Operation : Type 0 where
  receives : ℤ → ApixEvent → Operation
  ticks : ℤ → Operation
  stops_waiting closes : Operation

pub apply : Operation → EventWaiter → EventWaiter
unfolding resolve_waiter tick cancel_future close
apply (receives now e) w = resolve_waiter now e w
apply (ticks now) w = tick now w
apply stops_waiting w = cancel_future w
apply closes w = close w

pub run : List Operation → EventWaiter → EventWaiter
unfolding apply
run [] w = w
run (o ∷ os) w = run os (apply o w)

-- The outcome by the operations alone: no state is kept, and the first one that decides counts.
abbrev pub first_outcome : Option ℤ → List Operation → Future
first_outcome d [] = pending
first_outcome d (receives now e ∷ os) = if overdue now d then timed_out else resolved e
first_outcome d (ticks now ∷ os) =
    let rest = first_outcome d os in if overdue now d then timed_out else rest
first_outcome d (stops_waiting ∷ os) = cancelled
first_outcome d (closes ∷ os) = cancelled

abbrev pub has_closed : List Operation → Bool
has_closed [] = false
has_closed (closes ∷ os) = true
has_closed (o ∷ os) = has_closed os

abbrev pub deadline_of : ℤ → Option ℤ → Option ℤ
deadline_of now none = none
deadline_of now (some time_out) = some (now +ℤ time_out)

apply_done :
    (o : Operation) (w : EventWaiter) → is_done w.future ≡ true → (apply o w).future ≡ w.future
unfolding apply resolve_waiter tick cancel_future close expire
apply_done (receives now e) w h = rw (h)
apply_done (ticks now) w h = ground (arith, h)
apply_done stops_waiting w h = rw (h)
apply_done closes w h = rw (h)

apply-closed :
    (o : Operation) (w : EventWaiter) → (apply o w).closed ≡ (w.closed || has_closed (o ∷ []))
unfolding apply resolve_waiter tick cancel_future close expire
apply-closed (receives now e) w = ground arith
apply-closed (ticks now) w = ground arith
apply-closed stops_waiting w = ground arith
apply-closed closes w = ground arith

one_more :
    (o : Operation) (c : Bool) (os : List Operation)
    → (c || has_closed (o ∷ []) || has_closed os) ≡ (c || has_closed (o ∷ os))
one_more (receives now e) c os = ground arith
one_more (ticks now) c os = ground arith
one_more stops_waiting c os = ground arith
one_more closes c os = ground arith

run_done :
    (os : List Operation) (w : EventWaiter) → is_done w.future ≡ true → (run os w).future ≡ w.future
unfolding run
run_done [] w h = refl
run_done (o ∷ os) w h =
    run_done os (apply o w) (ap is_done (apply_done o w h) ∙ h) ∙ apply_done o w h

run-closed :
    (os : List Operation) (w : EventWaiter) → (run os w).closed ≡ (w.closed || has_closed os)
unfolding run
run-closed [] w = ground arith
run-closed (o ∷ os) w =
    run-closed os (apply o w)
    ∙ ap (λ c. c || has_closed os) (apply-closed o w)
    ∙ one_more o w.closed os

-- A waiter that nothing has decided.
abbrev undecided : Option ℤ → EventWaiter
undecided d = record { future = pending; deadline = d; timer = is_some d; closed = false }

run-undecided :
    (os : List Operation) (d : Option ℤ) → (run os (undecided d)).future ≡ first_outcome d os
unfolding run apply resolve_waiter tick cancel_future close expire
run-undecided [] d = refl
run-undecided (receives now e ∷ os) d =
    if_cases (λ w. (run os w).future ≡ first_outcome d (receives now e ∷ os)) (overdue now d) _ _
      (λ late. rw (late) (run_done os _ refl)) (λ early. rw (early) (run_done os _ refl))
run-undecided (ticks now ∷ os) none = run-undecided os none
run-undecided (ticks now ∷ os) (some d) =
    if_cases (λ w. (run os w).future ≡ first_outcome (some d) (ticks now ∷ os))
      (overdue now (some d)) _ _ (λ late. rw (late) (run_done os _ refl))
      (λ early. rw (early) (run-undecided os (some d)))
run-undecided (stops_waiting ∷ os) d = run_done os _ refl
run-undecided (closes ∷ os) d = run_done os _ refl

start_undecided :
    (now : ℤ) (time_out : Option ℤ)
    → start_timeout now time_out new_waiter ≡ undecided (deadline_of now time_out)
unfolding start_timeout
start_undecided now none = refl
start_undecided now (some t) = refl

-- After any operations on a waiter, its future is what the first deciding operation makes it: the first
-- event, unless the deadline has come by then, or the time-out, or a cancellation. To wait gives exactly
-- that, at any time and any number of times before the end of the context, and raises `RuntimeError`
-- afterwards.
pub run-first_outcome :
    (now : ℤ) (time_out : Option ℤ) (os : List Operation)
    → ((run os (start_timeout now time_out new_waiter)).future
        ≡ first_outcome (deadline_of now time_out) os)
      × (wait (run os (start_timeout now time_out new_waiter)) ≡ (
          if has_closed os
          then some (raise runtime_error)
          else told (first_outcome (deadline_of now time_out) os)))
unfolding wait
run-first_outcome now time_out os =
    let d = deadline_of now time_out in
    rw (start_undecided now time_out) (
      run-undecided os d,
      ap (λ f. if (run os (undecided d)).closed then some (raise runtime_error) else told f)
            (run-undecided os d)
          ∙ ap (λ b. if b then some (raise runtime_error) else told (first_outcome d os))
              (run-closed os (undecided d)),
    )
