-- ===== src/Graph/Invoke.antt =====
-- `NodeGraph.invoke`, `_invoke`, the end of `stream` and `_execute_one_node` of
-- source/apixis/core/graph/node_graph.py, on a context and what the callback of its end works on. A
-- cancellation of the task that awaits the completion cancels the completion.
pub mod Open
pub mod Ended
mod Examples
use apixis.Base.{
  ℕ, String, Bool, true, false, not, ◌&&◌, List, [], ◌∷◌, Option, none, some, Result, ok, raise,
  Error, runtime_error, cancelled_error, timeout_error, if◌then◌else◌,
}
use apixis.Graph.State.{State, copy_state}
use apixis.Graph.Context.{
  Status, aborted, GraphContext, World, Completion, waiting, cancelled, resolved, raised,
  is_running, abort, cancel, same_status,
}

abbrev has_items : {X : Type 0} → List X → Bool
has_items [] = false
has_items (x ∷ xs) = true

module _ {A R : Type 0} where
  -- `if context.status == "running": context._cancel()`
  abbrev pub cancelled_if_running : World A R → World A R
  cancelled_if_running w = if is_running w.0.status then (cancel w).0 else w

module _ {A R : Type 0} (deepcopy : A → A) (keep_ref_keys : List String) where
  -- The copy of the result that leaves the graph: of a checkpoint, or of a completed run.
  abbrev pub result_of : GraphContext A R → State A → State A
  result_of c s =
      if same_status c.status aborted && has_items c.context_snapshot
      then copy_state deepcopy s []
      else copy_state deepcopy s keep_ref_keys

  -- What `_invoke` makes of the completion that it has awaited, with `fail`, which is `_fail` of the
  -- graph; `none` while it waits.
  abbrev pub invoked :
      (Error → World A R → World A R)
      → World A R
      → Option (Completion A)
      → Option (World A R × Result (State A))
  invoked fail w none = some (w, raise runtime_error)
  invoked fail w (some waiting) = none
  invoked fail w (some (resolved s)) = some (w, ok (result_of w.0 s))
  invoked fail w (some (raised e)) = some (fail e w, raise e)
  invoked fail w (some cancelled) = some (cancelled_if_running w, raise cancelled_error)

  unfoldable pub end_invoke :
      (Error → World A R → World A R) → World A R → Option (World A R × Result (State A))
  unfolding cancel copy_state
  end_invoke fail w = invoked fail w w.0.completion

-- The head of `_invoke`: an active context's first dispatch is posted. An exception fails the run, a
-- cancellation cancels it.
module _ {A R : Type 0} where
  abbrev pub first_posted :
      (Error → World A R → World A R)
      → World A R × Result (Unit {0})
      → World A R × Result (Unit {0})
  first_posted fail (w, ok u) = (w, ok tt)
  first_posted fail (w, raise cancelled_error) = (cancelled_if_running w, raise cancelled_error)
  first_posted fail (w, raise e) = (fail e w, raise e)

  unfoldable pub begin_invoke :
      (World A R → Bool)
      → (World A R → World A R × Result (Unit {0}))
      → (Error → World A R → World A R)
      → World A R
      → World A R × Result (Unit {0})
  unfolding cancel
  begin_invoke active post fail w = if active w then first_posted fail (post w) else (w, ok tt)

  abbrev pub waited_for :
      (World A R → Option (World A R × Result (State A)))
      → World A R × Result (Unit {0})
      → Option (World A R × Result (State A))
  waited_for wait (w, ok u) = wait w
  waited_for wait (w, raise e) = some (w, raise e)

  -- `_invoke` on a bound context: its head, and, where that raises nothing, the end. `meanwhile` is what
  -- happens to the context and its completion in between. `none` while it waits.
  unfoldable pub invoke_context :
      (A → A)
      → List String
      → (World A R → Bool)
      → (World A R → World A R × Result (Unit {0}))
      → (World A R → World A R)
      → (Error → World A R → World A R)
      → World A R
      → Option (World A R × Result (State A))
  unfolding begin_invoke end_invoke
  invoke_context deepcopy keep active post meanwhile fail w =
      waited_for (λ v. end_invoke deepcopy keep fail (meanwhile v))
        (begin_invoke active post fail w)

  -- The `finally` of `stream`, when its execution task has ended.
  unfoldable pub end_stream : World A R → World A R
  unfolding abort
  end_stream w = if is_running w.0.status then (abort w).0 else w

-- How an execution ends under `asyncio.timeout`: before the deadline, or after it, when the task has
-- been cancelled by the scope.
pub data Scoped (X : Type 0) : Type 0 where
  in_time expired : Result X → Scoped X

-- The scope turns the cancellation that it has caused into a `TimeoutError`.
abbrev expired_as : {X : Type 0} → Result X → Result X
expired_as (ok x) = ok x
expired_as (raise cancelled_error) = raise timeout_error
expired_as (raise e) = raise e

abbrev scoped : {X : Type 0} → Scoped X → Result X
scoped (in_time r) = r
scoped (expired r) = expired_as r

-- `_execute_one_node`: `body` is the execution of the node on a copy of the state, and
-- `within` how it ends under a time limit.
unfoldable pub execute_one_node :
    {A X : Type 0}
    → (A → A)
    → List String
    → Option ℕ
    → (State A → Result X)
    → (ℕ → State A → Scoped X)
    → State A
    → Result X
unfolding copy_state
execute_one_node deepcopy keep none body within s = body (copy_state deepcopy s keep)
execute_one_node deepcopy keep (some limit) body within s =
    scoped (within limit (copy_state deepcopy s keep))
