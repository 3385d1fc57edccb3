-- ===== src/Graph/Run/Examples.antt =====
-- A run whose nodes always go back to themselves, and a checkpoint restored.
use apixis.Base.{ℕ, ◌+◌, String, true, false, List, [], ◌∷◌, some, ok, ◌≡◌, refl, arith, inr}
use apixis.Base.Int.{negsuc}
use apixis.Base.Dict.{get}
use apixis.Graph.State.{State, copy_state}
use apixis.Graph.Command.{Command, dict, plain, to}
use apixis.Graph.Commands.{Added, sum, one}
use apixis.Graph.Context.{
  GraphContext, Snapshot, running, waiting, fresh, take_a_snapshot, get_all_snapshots,
}
use apixis.Graph.Runtime.{NodeGraph, set_max_steps}
use apixis.Graph.Restore.{restore_context, context}
use apixis.Graph.Restore.RoundTrip.{
  restore_context_lem, restore_context-take_a_snapshot, resumed, at_snapshot,
}
use apixis.Graph.Run.{Executed, Batch, one_command, commands}
use apixis.Graph.Run.Bound.{IsRun, turns, turns-HasEnded}
use apixis.Graph.Run.Ends.{HasEnded}

abbrev add : ℕ → ℕ → Added ℕ
add a b = sum (a + b)

abbrev copy : ℕ → ℕ
copy n = n

abbrev looping : NodeGraph
looping = record {
  graph_id = "g1";
  nodes = "left" ∷ "right" ∷ [];
  entry_point = one "left";
  max_steps = 3;
  policies = record { auto_merge_keys = "n" ∷ []; keep_ref_keys = [] };
  no_snapshot = false;
  contexts = 7 ∷ [];
  decomposed = false;
}

abbrev again : Command ℕ
again = record { update = dict (("n", plain 1) ∷ []); goto = to "left" }

abbrev nodes : ℕ → List String → State ℕ → Batch ℕ
nodes n names s = apixis.Graph.Run.results (one_command again ∷ [])

abbrev begun : GraphContext ℕ (List ℕ)
begun = record (fresh "g1") {
  state = ("n", 1) ∷ [];
  target_node_name = one "left";
  completion = some waiting;
  status = running;
}

begun-IsRun : IsRun add copy looping 7 (begun, 7 ∷ [])
begun-IsRun = record { is_active = refl; bound = refl; within = inr (omega arith) }

turns_example : HasEnded (turns add copy looping 7 (λ n. n) nodes 4 ((begun, 7 ∷ []), true)).0
turns_example = turns-HasEnded add copy looping 7 (λ n. n) nodes (begun, 7 ∷ []) begun-IsRun

abbrev early : Snapshot ℕ
early = record {
  timestamp = 1;
  state = ("n", 1) ∷ [];
  target_node_name = one "left";
  steps = 0;
  graph_id = "g1";
}

abbrev late : Snapshot ℕ
late = record {
  timestamp = 2;
  state = ("n", 2) ∷ [];
  target_node_name = one "right";
  steps = 1;
  graph_id = "g1";
}

abbrev with_history : GraphContext ℕ (List ℕ)
with_history = record begun { context_snapshot = early ∷ late ∷ [] }

restored_example :
    restore_context copy looping (context with_history) (negsuc 0)
    ≡ ok (at_snapshot copy "g1" (early ∷ []) late)
restored_example =
    restore_context_lem copy looping refl with_history (negsuc 0) 1 late refl (refl, (refl, tt))
      refl refl

resumed_example :
    restore_context copy looping
      (context (take_a_snapshot copy 9 (with_history, 7 ∷ [])).0.0)
      (negsuc 0)
    ≡ ok (resumed looping with_history 9)
resumed_example =
    restore_context-take_a_snapshot copy (λ x. refl) looping with_history (7 ∷ []) 9 refl refl refl
      (refl, (refl, tt))

lowered : set_max_steps (negsuc 4) looping ≡ ok (record looping { max_steps = 0 })
unfolding set_max_steps
lowered = refl

abbrev at_present : Snapshot ℕ
at_present = record early { timestamp = 9 }

copies :
    get_all_snapshots copy (take_a_snapshot copy 9 (with_history, 7 ∷ [])).0.0
    ≡ early ∷ late ∷ at_present ∷ []
unfolding get_all_snapshots take_a_snapshot copy_state get
copies = refl
