-- ===== src/Graph/Examples.antt =====
-- Examples of commands, of the life of a context and of targets, over numbers as values.
use apixis.Base.{
  ℕ, suc, ◌+◌, false, List, [], ◌∷◌, some, ok, raise, value_error, string_eq, dedup, ◌≡◌, refl,
}
use apixis.Base.Int.{pos}
use apixis.Base.Dict.{get, put}
use apixis.Graph.State.{State, Policies, copy_state}
use apixis.Graph.Command.{
  Command, plain, dict, to, to_all, command, state_update, neither, NodeResult, many_results,
  normalise_result, normalise_node_result, items, AllNormal, NodeNormal, normalise_result-AllNormal,
}
use apixis.Graph.Commands.{
  Added, sum, one, batch, apply_batch, apply_groups, apply_node, apply_one, apply_update,
  apply_field, store, apply_goto, next_target, for_each,
}
use apixis.Graph.Commands.Conflicts.{has_conflict, Outcome}
use apixis.Graph.Commands.Conflicts.Batches.{apply_batch-Conflicts}
use apixis.Graph.Commands.Targets.{shape, has_batch, named, all_commands}
use apixis.Graph.Commands.Targets.Batches.{apply_batch-shape}
use apixis.Graph.Context.{GraphContext, fresh, bind, abort, transition_to}
use apixis.Graph.Context.Life.{
  Operation, binds, perform, finishes, aborts, snapshots, commits, stops_waiting, run, view,
}
use apixis.Graph.Context.Life.Ends.{CallsOnce, bind-CallsOnce, run-terminal}
use apixis.Graph.Runtime.{NodeGraph, int, validate_target, normalise_target}
use apixis.Graph.Runtime.Targets.{IsRunnable, validate_target-IsRunnable}

abbrev policies : Policies
policies = record { auto_merge_keys = "total" ∷ []; keep_ref_keys = "link" ∷ [] }

abbrev add : ℕ → ℕ → Added ℕ
add a b = sum (a + b)

abbrev copy : ℕ → ℕ
copy n = n

abbrev initial : State ℕ
initial = ("total", 1) ∷ ("link", 2) ∷ []

abbrev adds : Command ℕ
adds = record { update = dict (("total", plain 4) ∷ []); goto = to "left" }

abbrev names_two : Command ℕ
names_two = record {
  update = dict (("label", plain 9) ∷ []);
  goto = to_all ("right" ∷ "__end__" ∷ "left" ∷ []);
}

abbrev results : NodeResult ℕ
results = many_results (command adds ∷ state_update [] ∷ neither ∷ [])

normal_example :
    AllNormal (items results) (normalise_result results)
    × NodeNormal results (normalise_node_result results)
normal_example = normalise_result-AllNormal results

abbrev groups : List (List (Command ℕ))
groups = (adds ∷ []) ∷ (names_two ∷ adds ∷ []) ∷ []

conflicts_example :
    Outcome (has_conflict policies [] groups) (apply_batch add copy policies initial groups).1
conflicts_example = apply_batch-Conflicts add (λ x y e. cc e) copy policies initial groups

abbrev merged : State ℕ
merged = ("total", 9) ∷ ("link", 2) ∷ ("label", 9) ∷ []

applied :
    apply_batch add copy policies initial groups ≡ (merged, ok (batch ("left" ∷ "right" ∷ [])))
unfolding apply_batch apply_groups apply_node apply_one apply_update apply_field store apply_goto
    next_target for_each copy_state get put
applied = refl

-- Both nodes write `label`.
clash :
    (apply_batch add copy policies initial ((names_two ∷ []) ∷ (names_two ∷ []) ∷ [])).1
    ≡ raise value_error
unfolding apply_batch apply_groups apply_node apply_one apply_update apply_field store apply_goto
    next_target for_each copy_state get put
clash = refl

shape_example :
    batch ("left" ∷ "right" ∷ [])
    ≡ shape (has_batch (all_commands groups)) (dedup (named (all_commands groups)))
shape_example =
    apply_batch-shape add copy policies initial merged groups (batch ("left" ∷ "right" ∷ []))
      applied

abbrev operations : List (Operation ℕ ℕ)
operations = snapshots 3 ∷ commits [] 1 ∷ finishes ∷ aborts ∷ stops_waiting ∷ []

abbrev pending_context : GraphContext ℕ ℕ
pending_context = fresh "g1"

once_example :
    CallsOnce suc 0 (view (run copy operations (bind "run" (some suc) (pending_context, 0)).0))
once_example = bind-CallsOnce copy "run" suc operations pending_context 0 refl

abbrev beginning : List (Operation ℕ ℕ)
beginning = binds "run" (some suc) ∷ aborts ∷ []

terminal_example :
    view (run copy operations (run copy beginning (pending_context, 0)))
    ≡ view (run copy beginning (pending_context, 0))
unfolding run perform abort bind transition_to
terminal_example = run-terminal copy beginning operations (pending_context, 0) refl refl

abbrev graph : NodeGraph
graph = record {
  graph_id = "g1";
  nodes = "left" ∷ "right" ∷ [];
  entry_point = one "left";
  max_steps = 5;
  policies = policies;
  no_snapshot = false;
  contexts = [];
  decomposed = false;
}

accepted :
    validate_target graph (to_all ("left" ∷ "__end__" ∷ "left" ∷ "right" ∷ [])) (int (pos 4))
    ≡ ok (batch ("left" ∷ "right" ∷ []))
unfolding validate_target normalise_target
accepted = refl

target_example :
    (n : ℕ) × (int (pos 4) ≡ int (pos n)) × IsRunnable graph n (batch ("left" ∷ "right" ∷ []))
target_example =
    validate_target-IsRunnable graph (to_all ("left" ∷ "__end__" ∷ "left" ∷ "right" ∷ []))
      (int (pos 4)) (batch ("left" ∷ "right" ∷ [])) accepted
