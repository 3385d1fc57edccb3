-- ===== src/Graph/Run.antt =====
-- One run of a graph, dispatch by dispatch: the dispatch handler of `_register_dispatch_handler`,
-- `_execute_node` and the head of `apply_command` of source/apixis/core/graph/node_graph.py. A dispatch
-- is two turns, before and after its nodes run. `i` is the number of the context, and the context goes
-- beside the graph's set of running contexts.
pub mod Bound
pub mod Ends
mod Examples
use apixis.Base.{
  ℕ, suc, ◌+◌, ◌-◌, String, Bool, true, false, not, ◌&&◌, ◌||◌, List, [], ◌∷◌, Option, none, some,
  Result, ok, raise, Error, ◌>>=◌, ◌>>◌, reject, runtime_error, type_error, invalid_context,
  graph_node_error, if◌then◌else◌, ◌==◌, string_eq, nat_eq, contains, eqb, length,
}
use apixis.Base.Int.{pos}
use apixis.Graph.State.{State}
use apixis.Graph.Command.{Command, Goto, to, to_all}
use apixis.Graph.Commands.{Added, Target, one, batch, apply_batch}
use apixis.Graph.Context.{
  GraphContext, World, is_running, is_pending, take_a_snapshot, finish, fail, abort, cancel,
}
use apixis.Graph.Runtime.{NodeGraph, normalise_targets, validate_target, int, as_goto, is_end}

-- What `Node.execute` returns: a command, a list, or another value.
pub data Executed (A : Type 0) : Type 0 where
  one_command : Command A → Executed A
  commands : List (Command A) → Executed A
  no_commands : Executed A

-- How the nodes of a batch end: each with a result, or the batch with an exception or a cancellation.
pub data Batch (A : Type 0) : Type 0 where
  results : List (Executed A) → Batch A
  fails_with : Error → Batch A
  is_cancelled : Batch A

abbrev group_of : {A : Type 0} → Executed A → Result (List (Command A))
group_of (one_command c) = ok (c ∷ [])
group_of (commands cs) = ok cs
group_of no_commands = raise type_error

abbrev groups_of : {A : Type 0} → List (Executed A) → Result (List (List (Command A)))
groups_of [] = ok []
groups_of (r ∷ rs) = group_of r >>= λ g. groups_of rs >>= λ gs. ok (g ∷ gs)

-- `_normalise_command_groups`
unfoldable pub normalise_command_groups :
    {A : Type 0} → List (Executed A) → List String → Result (List (List (Command A)))
normalise_command_groups rs names =
    reject (not (eqb (length rs) (length names))) type_error >> groups_of rs

module _ {A : Type 0} (add : A → A → Added A) (deepcopy : A → A) (g : NodeGraph) where
  abbrev applied :
      GraphContext A (List ℕ) → State A × Result Target → GraphContext A (List ℕ) × Result Target
  applied c (s, t) = (record c { state = s }, t)

  abbrev apply_groups_to :
      GraphContext A (List ℕ)
      → Result (List (List (Command A)))
      → GraphContext A (List ℕ) × Result Target
  apply_groups_to c (raise e) = (c, raise e)
  apply_groups_to c (ok groups) = applied c (apply_batch add deepcopy g.policies c.state groups)

  -- `apply_command`, of a list of nodes and their results
  unfoldable pub apply_command :
      List (Executed A)
      → List String
      → GraphContext A (List ℕ)
      → GraphContext A (List ℕ) × Result Target
  unfolding normalise_command_groups
  apply_command rs names c = apply_groups_to c (
      reject g.decomposed runtime_error
      >> reject (not (c.graph_id == g.graph_id && (is_pending c.status || is_running c.status)))
          invalid_context
      >> normalise_targets (to_all names)
      >>= normalise_command_groups rs)

  module _ (i : ℕ) where
    -- `_is_active_context`
    abbrev pub active : World A (List ℕ) → Bool
    active (c, ids) =
        not g.decomposed && (c.graph_id == g.graph_id && (contains i ids && is_running c.status))

    -- `_finish` and `_fail`
    abbrev pub finish_active : World A (List ℕ) → World A (List ℕ)
    finish_active w = if active w then (finish w).0 else w

    abbrev pub fail_active : Error → World A (List ℕ) → World A (List ℕ)
    fail_active e w = if active w then (fail e w).0 else w

    -- The other functions of the dispatch handler: after an error of a handler before it, on an event
    -- that is accepted, after a failure of its own, and on a cancellation.
    unfoldable pub on_dispatch_error : World A (List ℕ) → World A (List ℕ)
    on_dispatch_error w = fail_active graph_node_error w

    unfoldable pub on_dispatch_accepted : World A (List ℕ) → World A (List ℕ)
    on_dispatch_accepted w = if active w then (abort w).0 else w

    unfoldable pub on_dispatch_failure : Error → World A (List ℕ) → World A (List ℕ)
    on_dispatch_failure e w = fail_active e w

    unfoldable pub on_dispatch_cancelled : World A (List ℕ) → World A (List ℕ)
    on_dispatch_cancelled w = if active w then (cancel w).0 else w

    abbrev pub checkpointed : ℕ → World A (List ℕ) → World A (List ℕ) × Result (Unit {0})
    checkpointed now w = if g.no_snapshot then (w, ok tt) else take_a_snapshot deepcopy now w

    abbrev pub started :
        List String → World A (List ℕ) × Result (Unit {0}) → World A (List ℕ) × Option (List String)
    started names (w, ok tt) = (w, some names)
    started names (w, raise e) = (on_dispatch_failure e w, none)

    abbrev pub begin_nodes :
        ℕ → Result (List String) → World A (List ℕ) → World A (List ℕ) × Option (List String)
    begin_nodes now (raise e) w = (on_dispatch_failure e w, none)
    begin_nodes now (ok names) w = started names (checkpointed now w)

    -- `dispatch_node` up to the execution of nodes, with those that are to run.
    unfoldable pub begin_dispatch : ℕ → World A (List ℕ) → World A (List ℕ) × Option (List String)
    unfolding on_dispatch_failure
    begin_dispatch now w =
        if not (active w)
        then (w, none)
        else if is_end w.0.target_node_name
        then (finish_active w, none)
        else begin_nodes now (normalise_targets (as_goto w.0.target_node_name)) w

    -- `if context.is_active: self._fail(...)`
    abbrev pub fail_running : Error → World A (List ℕ) → World A (List ℕ)
    fail_running e w = if is_running w.0.status then fail_active e w else w

    -- `_post_next`, with whether the dispatch was posted
    abbrev pub posted : World A (List ℕ) → Result Target → World A (List ℕ) × Bool
    posted w (raise e) = (fail_running e w, false)
    posted (c, ids) (ok t) = ((record c { target_node_name = t }, ids), true)

    abbrev pub stepped : GraphContext A (List ℕ) → GraphContext A (List ℕ)
    stepped c = record c { steps = c.steps + 1 }

    abbrev pub committed :
        List ℕ → GraphContext A (List ℕ) × Result Target → World A (List ℕ) × Bool
    committed ids (c, raise e) = (fail_running e (c, ids), false)
    committed ids (c, ok t) =
        posted (stepped c, ids) (validate_target g (as_goto t) (int (pos (c.steps + 1))))

    -- `_execute_node` after its nodes.
    unfoldable pub end_dispatch : List String → Batch A → World A (List ℕ) → World A (List ℕ) × Bool
    unfolding apply_command on_dispatch_cancelled
    end_dispatch names (fails_with e) w = (fail_running e w, false)
    end_dispatch names is_cancelled w = (on_dispatch_cancelled w, false)
    end_dispatch names (results rs) (c, ids) =
        if not (is_running c.status)
        then ((c, ids), false)
        else committed ids (apply_command rs names c)
