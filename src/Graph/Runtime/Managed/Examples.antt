-- ===== src/Graph/Runtime/Managed/Examples.antt =====
-- A graph with two attempts that run.
use apixis.Base.{ℕ, String, true, false, [], ◌∷◌, ◌≡◌, refl}
use apixis.Base.Dict.{get, put}
use apixis.Graph.Commands.{one}
use apixis.Graph.Context.{bind, transition_to}
use apixis.Graph.Runtime.{
  NodeGraph, Runtime, dict_state, no_context, begin_invocation, start_context, create_context,
  validate_target, normalise_target, decompose,
}
use apixis.Graph.Runtime.Managed.{Managed, GraphReach, here, next, begins}
use apixis.Graph.Runtime.Managed.Reach.{Reach-Managed, closed}
use apixis.Graph.Runtime.Managed.Decompose.{IsStopped, decompose_lem}

abbrev copy : ℕ → ℕ
copy n = n

abbrev graph : NodeGraph
graph = record {
  graph_id = "g1";
  nodes = "left" ∷ "right" ∷ [];
  entry_point = one "left";
  max_steps = 5;
  policies = record { auto_merge_keys = []; keep_ref_keys = [] };
  no_snapshot = false;
  contexts = [];
  decomposed = false;
}

abbrev just_built : Runtime ℕ
just_built = record { graph = graph; store = []; posted = [] }

abbrev begun : String → ℕ → Runtime ℕ → Runtime ℕ
begun run_id i rt = (begin_invocation copy run_id i (dict_state (("n", i) ∷ [])) no_context rt).0

abbrev two_runs : Runtime ℕ
two_runs = begun "second" 1 (begun "first" 0 just_built)

runs : two_runs.graph.contexts ≡ 0 ∷ 1 ∷ []
unfolding begin_invocation start_context create_context validate_target normalise_target bind
    transition_to get put
runs = refl

reaches : GraphReach copy just_built two_runs
unfolding begin_invocation start_context create_context validate_target normalise_target bind
    transition_to get put
reaches =
    next (next here (begins "first" 0 (dict_state (("n", 0) ∷ [])) no_context refl))
      (begins "second" 1 (dict_state (("n", 1) ∷ [])) no_context refl)

set_example : Managed two_runs
set_example = Reach-Managed copy graph two_runs refl reaches

not_yet : two_runs.graph.decomposed ≡ false
unfolding begin_invocation start_context create_context validate_target normalise_target bind
    transition_to get put
not_yet = refl

closing_example : IsStopped (closed two_runs) (decompose true two_runs)
closing_example = decompose_lem two_runs (Reach-Managed copy graph two_runs refl reaches) not_yet
