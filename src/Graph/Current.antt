-- ===== src/Graph/Current.antt =====
-- source/apixis/core/graph/context/manager.py: the context variable of the run whose node executes; and
-- the head of `interrupt` of source/apixis/core/graph/interrupter/graph_interrupter.py, which reads it.
use apixis.Base.{
  ℕ, String, true, not, [], Option, none, some, Result, ok, raise, ◌>>=◌, ◌>>◌, reject,
  runtime_error, if◌then◌else◌, is_some,
}
use apixis.Base.Dict.{Dict}
use apixis.Graph.Context.{GraphContext, is_running}
use apixis.Graph.Namespace.{Graph, get_graph_namespace, get_graph_interrupted_name, by_name}
use apixis.Graph.Block.{new_block}
use apixis.Graph.Hooks.{BlockEvent}

-- A writer: of a stream, or the one that drops its chunks.
pub data StreamWriter : Type 0 where
  noop : StreamWriter
  of_channel : ℕ → StreamWriter

abbrev or_raise : {X : Type 0} → Option X → Result X
or_raise none = raise runtime_error
or_raise (some x) = ok x

module _ {A R : Type 0} where
  -- `_current_graph_context.get()`, where there must be a run.
  unfoldable pub get_graph_context : Option (GraphContext A R) → Result (GraphContext A R)
  get_graph_context none = raise runtime_error
  get_graph_context (some c) = ok c

  unfoldable pub get_current_run_id : Option (GraphContext A R) → Result String
  unfolding get_graph_context
  get_current_run_id v = get_graph_context v >>= λ c. or_raise c.run_id

  unfoldable pub get_current_namespace :
      Dict ℕ Graph → Dict String ℕ → Option (GraphContext A R) → Result String
  unfolding get_graph_context get_graph_namespace
  get_current_namespace graphs owners v =
      get_graph_context v >>= λ c. get_graph_namespace graphs c.graph_id owners

  -- `get_stream_writer`, where `writer` is the context's `stream_writer`: a run that is over has one
  -- that drops its chunks.
  unfoldable pub get_stream_writer :
      Option StreamWriter → Option (GraphContext A R) → Result StreamWriter
  unfolding get_graph_context
  get_stream_writer writer v = get_graph_context v >>= λ c.
      or_raise writer >>= λ w. ok (if is_running c.status then w else noop)

  -- `apix_graph_context`: the body runs with the context, and the variable is as before afterwards.
  unfoldable pub apix_graph_context :
      {X : Type 0}
      → GraphContext A R
      → (Option (GraphContext A R) → Option (GraphContext A R) × Result X)
      → Option (GraphContext A R)
      → Option (GraphContext A R) × Result X
  apix_graph_context c body v = (v, (body (some c)).1)

  abbrev given : Option (GraphContext A R) → Option (GraphContext A R) → Result (GraphContext A R)
  given none v = or_raise v
  given (some c) v = ok c

  -- The head of `interrupt`: the event of the interruption with its block, for the context that is
  -- given or else the current one. A context that runs has its run id.
  unfoldable pub new_interruption :
      {B : Type 0}
      → Dict ℕ Graph
      → Dict String ℕ
      → Option (GraphContext A R)
      → Option (GraphContext A R)
      → Result (String × BlockEvent B)
  unfolding get_graph_namespace get_graph_interrupted_name
  new_interruption graphs owners context v = do
    c ← given context v
    reject (not (is_running c.status)) runtime_error
    namespace ← get_graph_namespace graphs c.graph_id owners
    reject (not (is_some c.completion)) runtime_error
    event_name ← get_graph_interrupted_name owners (by_name namespace) true
    ok (
      event_name,
      record { block = new_block; graph_id = c.graph_id; run_id = c.run_id; seen = [] },
    )
