-- ===== src/Graph/Invoke/Examples.antt =====
-- An invocation whose run finishes, and one that its caller cancels.
use apixis.Base.{ℕ, ◌+◌, false, List, [], ◌∷◌, some, ok, without, nat_eq, string_eq, ◌≡◌, refl}
use apixis.Graph.State.{copy_state}
use apixis.Graph.Commands.{Added, sum, one}
use apixis.Graph.Context.{World, fresh, bind, transition_to, finish, set_target_node}
use apixis.Graph.Context.Life.{Operation, targets, commits, finishes, perform, run}
use apixis.Graph.Runtime.{NodeGraph}
use apixis.Graph.Run.{active, fail_active}
use apixis.Graph.Invoke.{begin_invoke, end_invoke, invoke_context}
use apixis.Graph.Invoke.Ended.{Over, invoke_context-Over}

abbrev add : ℕ → ℕ → Added ℕ
add a b = sum (a + b)

abbrev copy : ℕ → ℕ
copy n = n

abbrev graph : NodeGraph
graph = record {
  graph_id = "g1";
  nodes = "left" ∷ [];
  entry_point = one "left";
  max_steps = 5;
  policies = record { auto_merge_keys = []; keep_ref_keys = [] };
  no_snapshot = false;
  contexts = 2 ∷ 7 ∷ [];
  decomposed = false;
}

abbrev begun : World ℕ (List ℕ)
begun = (bind "run" (some (without 7)) (fresh "g1", 2 ∷ 7 ∷ [])).0

abbrev completes : List (Operation ℕ (List ℕ))
completes = commits (("n", 3) ∷ []) 1 ∷ finishes ∷ []

abbrev sends : List (Operation ℕ (List ℕ))
sends = targets (one "left") ∷ []

abbrev completed : World ℕ (List ℕ)
completed = run copy completes (run copy sends begun)

ends :
    invoke_context copy []
      (active add copy graph 7)
      (λ w. (run copy sends w, ok tt))
      (run copy completes)
      (fail_active add copy graph 7)
      begun
    ≡ some (completed, ok (("n", 3) ∷ []))
unfolding invoke_context begin_invoke set_target_node end_invoke bind transition_to run perform
    finish copy_state
ends = refl

invocation_example : Over add copy graph 7 (2 ∷ 7 ∷ []) completed
invocation_example =
    invoke_context-Over add copy graph 7 [] "run" (2 ∷ 7 ∷ []) sends (ok tt) completes (fresh "g1")
      completed (ok (("n", 3) ∷ [])) refl refl refl refl ends
