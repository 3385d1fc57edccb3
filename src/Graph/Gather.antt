-- ===== src/Graph/Gather.antt =====
-- `BaseNode._gather_tasks_in_order` of source/apixis/core/graph/node.py: how a batch of nodes, and the
-- branches of a `ParallelNode`, are awaited. `asyncio.gather` is as its documentation has it: results in
-- the order of its arguments, the first exception at once, with the others left alone, and a
-- cancellation passed on to all that are not done. Between two steps the tasks and the caller's
-- canceller may do anything.
pub mod Tasks
pub mod Settled
mod Examples
use apixis.Base.{
  ℕ, zero, suc, Bool, true, false, List, [], ◌∷◌, map, Option, none, some, Result, ok, raise, Error,
  cancelled_error, type_error, timeout_error, if◌then◌else◌,
}
use mathlib.Core.Option
use apixis.Graph.Command.{Command, NodeResult, normalise_node_result}

-- A task: not done, with whether `cancel` has been called on it, or done with its outcome.
pub data Task (X : Type 0) : Type 0 where
  unfinished : Bool → Task X
  finished : Result X → Task X

abbrev pub is_finished : {X : Type 0} → Task X → Bool
is_finished (finished r) = true
is_finished (unfinished b) = false

-- Where the coroutine is: at the first `gather`, at the second with the exception that it is to raise,
-- or at its end.
pub data Place (X : Type 0) : Type 0 where
  awaiting : Place X
  settling : Error → Place X
  ended : Result (List X) → Place X

-- `outer` is the future of the first `gather`, `requested` whether the caller was cancelled
-- before the end.
pub record Gathering (X : Type 0) : Type 0 where
  pub tasks : List (Task X)
  pub outer : Option (Result (List X))
  pub requested : Bool
  pub position : Place X

module _ {X : Type 0} where
  -- The results of all tasks, when all have returned.
  abbrev pub all_results : List (Task X) → Option (List X)
  all_results [] = some []
  all_results (finished (ok x) ∷ ts) = Option.map (λ xs. x ∷ xs) (all_results ts)
  all_results (finished (raise e) ∷ ts) = none
  all_results (unfinished b ∷ ts) = none

  abbrev pub all_finished : List (Task X) → Bool
  all_finished [] = true
  all_finished (t ∷ ts) = if is_finished t then all_finished ts else false

  -- `gather` when it is called.
  abbrev pub outer_of : Option (List X) → Bool → Option (Result (List X))
  outer_of none requested = none
  outer_of (some xs) requested = some (if requested then raise cancelled_error else ok xs)

  abbrev pub new_tasks : ℕ → List (Task X)
  new_tasks zero = []
  new_tasks (suc n) = unfinished false ∷ new_tasks n

  unfoldable pub gather_tasks : ℕ → Gathering X
  gather_tasks n = record {
    tasks = new_tasks n;
    outer = outer_of (all_results (new_tasks n)) false;
    requested = false;
    position = awaiting;
  }

  abbrev end_task : Result X → Task X → Task X
  end_task r (unfinished b) = finished r
  end_task r (finished q) = finished q

  abbrev pub end_at : ℕ → Result X → List (Task X) → List (Task X)
  end_at i r [] = []
  end_at zero r (t ∷ ts) = end_task r t ∷ ts
  end_at (suc i) r (t ∷ ts) = t ∷ end_at i r ts

  abbrev pub cancel_task : Task X → Task X
  cancel_task (unfinished b) = unfinished true
  cancel_task (finished r) = finished r

  -- `for task in tasks: if not task.done(): task.cancel()`
  abbrev pub cancel_unfinished : List (Task X) → List (Task X)
  cancel_unfinished [] = []
  cancel_unfinished (t ∷ ts) = cancel_task t ∷ cancel_unfinished ts

  -- The future of `gather` when one more task is done.
  abbrev pub tell_outer :
      Result X → Bool → List (Task X) → Option (Result (List X)) → Option (Result (List X))
  tell_outer r requested ts (some q) = some q
  tell_outer (raise e) requested ts none = some (raise e)
  tell_outer (ok x) requested ts none = outer_of (all_results ts) requested

  abbrev is_unfinished_at : ℕ → List (Task X) → Bool
  is_unfinished_at i [] = false
  is_unfinished_at zero (t ∷ ts) = if is_finished t then false else true
  is_unfinished_at (suc i) (t ∷ ts) = is_unfinished_at i ts

  -- The task `i` is done with an outcome; a cancelled one raises `CancelledError`.
  unfoldable pub finish_task : ℕ → Result X → Gathering X → Gathering X
  finish_task i r g =
      if is_unfinished_at i g.tasks
      then record g {
        tasks = end_at i r g.tasks;
        outer = tell_outer r g.requested (end_at i r g.tasks) g.outer;
      }
      else g

  -- The future passes the cancellation on to the tasks, unless it is done.
  abbrev pub cancel_awaiting : Option (Result (List X)) → Gathering X → Gathering X
  cancel_awaiting none g = record g { tasks = cancel_unfinished g.tasks; requested = true }
  cancel_awaiting (some r) g = record g { outer = some (raise cancelled_error); requested = true }

  -- The caller is cancelled, at the `await` where the coroutine is.
  unfoldable pub cancel_caller : Gathering X → Gathering X
  cancel_caller g = elim g.position [
    | awaiting ↦ cancel_awaiting g.outer g
    | settling e ↦ record g {
      tasks = cancel_unfinished g.tasks;
      requested = true;
      position = settling cancelled_error;
    }
    | ended r ↦ g
  ]

  abbrev pub go_on_from : Option (Result (List X)) → Gathering X → Gathering X
  go_on_from none g = g
  go_on_from (some (ok xs)) g = record g { position = ended (ok xs) }
  go_on_from (some (raise e)) g = record g {
    tasks = cancel_unfinished g.tasks;
    position = settling e;
  }

  -- The coroutine goes on, if what it awaits is done.
  unfoldable pub go_on : Gathering X → Gathering X
  go_on g = elim g.position [
    | awaiting ↦ go_on_from g.outer g
    | settling e ↦ if all_finished g.tasks then record g { position = ended (raise e) } else g
    | ended r ↦ g
  ]

pub data Operation (X : Type 0) : Type 0 where
  finishes : ℕ → Result X → Operation X
  cancels resumes : Operation X

module _ {X : Type 0} where
  unfoldable pub perform : Operation X → Gathering X → Gathering X
  unfolding finish_task cancel_caller go_on
  perform (finishes i r) g = finish_task i r g
  perform cancels g = cancel_caller g
  perform resumes g = go_on g

  unfoldable pub run : List (Operation X) → Gathering X → Gathering X
  unfolding perform
  run [] g = g
  run (op ∷ ops) g = run ops (perform op g)
