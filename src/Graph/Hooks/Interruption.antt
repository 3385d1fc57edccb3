-- ===== src/Graph/Hooks/Interruption.antt =====
-- An interruption in a run of a graph that has no hooks.
use apixis.Base.{
  ◌++◌, ℕ, String, false, [], ◌∷◌, none, some, ok, raise, block_hook_not_registered, without,
  string_eq, nat_eq, ◌≡◌, refl,
}
use apixis.Base.Dict.{Dict, get, put}
use apixis.Graph.Commands.{one}
use apixis.Graph.Context.{fresh, bind, transition_to}
use apixis.Graph.Namespace.{Graph, get_graph_namespace, get_graph_interrupted_name, qualified}
use apixis.Graph.Block.{new_block}
use apixis.Graph.Runtime.{
  NodeGraph, Runtime, dict_state, no_context, begin_invocation, start_context, create_context,
  validate_target, normalise_target,
}
use apixis.Graph.Runtime.Managed.{Attempt, Managed, here, next, begins}
use apixis.Graph.Runtime.Managed.Begin.{bound}
use apixis.Graph.Runtime.Managed.Reach.{Reach-Managed}
use apixis.Graph.State.{copy_state}
use apixis.Graph.Current.{new_interruption}
use apixis.Graph.Hooks.{BlockEvent, require_interrupted_hook}
use apixis.Graph.Hooks.Unhandled.{require_interrupted_hook-unseen}

abbrev copy : ℕ → ℕ
copy n = n

abbrev graph : NodeGraph
graph = record {
  graph_id = "g1";
  nodes = "left" ∷ [];
  entry_point = one "left";
  max_steps = 5;
  policies = record { auto_merge_keys = []; keep_ref_keys = [] };
  no_snapshot = false;
  contexts = [];
  decomposed = false;
}

abbrev new_graph : Runtime ℕ
new_graph = record { graph = graph; store = []; posted = [] }

abbrev at_work : Runtime ℕ
at_work = (begin_invocation copy "first" 0 (dict_state []) no_context new_graph).0

at_work-Managed : Managed at_work
unfolding get
at_work-Managed =
    Reach-Managed copy graph at_work refl
      (next here (begins "first" 0 (dict_state []) no_context refl))

abbrev attempt : Attempt ℕ
attempt = bound "first" (without 0) (record (fresh "g1") { target_node_name = one "left" })

attempt_at : get 0 at_work.store ≡ some attempt
unfolding begin_invocation start_context create_context validate_target normalise_target bind
    transition_to get put copy_state
attempt_at = refl

still_live : at_work.graph.decomposed ≡ false
unfolding begin_invocation start_context create_context validate_target normalise_target bind
    transition_to get put copy_state
still_live = refl

abbrev owners : Dict String ℕ
owners = ("ns", 4) ∷ []

abbrev graphs : Dict ℕ Graph
graphs = (4, record { namespace = "ns"; graph_id = "g1"; decomposed = false }) ∷ []

abbrev question : BlockEvent ℕ
question = record { block = new_block; graph_id = "g1"; run_id = some "first"; seen = [] }

asked :
    new_interruption graphs owners (some attempt) none
    ≡ ok (qualified "__graph_interrupted__" "ns", question)
unfolding new_interruption get_graph_namespace get_graph_interrupted_name get
asked = refl

unhandled_example :
    (require_interrupted_hook "fallback"
        (record question { seen = question.seen ++ "fallback" ∷ [] })
        at_work
      ≡ raise block_hook_not_registered)
    × (require_interrupted_hook "fallback" question at_work ≡ raise block_hook_not_registered)
unhandled_example =
    require_interrupted_hook-unseen graphs owners at_work 0 attempt none "fallback"
      (qualified "__graph_interrupted__" "ns") question at_work-Managed still_live attempt_at refl
      asked
