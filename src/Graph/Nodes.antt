-- ===== src/Graph/Nodes.antt =====
-- The nodes of source/apixis/core/graph/node.py: what wraps the function of a node, and `ParallelNode`
-- with its branches, which `_gather_tasks_in_order` awaits.
use apixis.Base.{
  String, Bool, not, List, [], ◌∷◌, map, Option, none, some, Result, ok, raise, ◌>>=◌, ◌>>◌, reject,
  value_error, type_error, if◌then◌else◌, ◌==◌, string_eq, all, length, ◌≡◌, refl, sym, ap, ◌∙◌,
}
use mathlib.Core.Option
use apixis.Graph.Command.{Command, NodeResult, normalise_node_result, parallel_execute}
use apixis.Graph.Definition.{Node, TimeoutArgument, set_timeout}
use apixis.Graph.Gather.{Task, finished, Gathering, gather_tasks, all_results}

-- `_wrap_func` for `Node` and for a branch: the exception of the function, or its normalised result.
abbrev pub wrap_func : {A : Type 0} → Result (NodeResult A) → Result (Command A)
wrap_func returned = returned >>= normalise_node_result

-- The argument `funcs`: a list or a tuple, each item callable or not, or another value.
pub data FuncsArgument : Type 0 where
  not_sequence : FuncsArgument
  sequence : List Bool → FuncsArgument

abbrev branches_of : FuncsArgument → Result (List Bool)
branches_of not_sequence = raise type_error
branches_of (sequence []) = raise value_error
branches_of (sequence (f ∷ fs)) = ok (f ∷ fs)

-- The argument `name`, where `none` is no text.
abbrev named : Option String → Result String
named none = raise value_error
named (some name) = if name == "" then raise value_error else ok name

-- `ParallelNode.__init__`, with the number of its branches as the list of them.
unfoldable pub make_parallel_node :
    FuncsArgument → Option String → TimeoutArgument → Result (Node × List Bool)
unfolding set_timeout
make_parallel_node funcs name t = named name >>= λ n. branches_of funcs >>= λ branches.
    reject (not (all (λ is_callable. is_callable) branches)) value_error
    >> set_timeout t (record { name = n; timeout = none })
    >>= λ node. ok (node, branches)

-- `ParallelNode.execute`: one task per branch, where a state that is no dict is rejected before.
unfoldable pub execute_parallel : (A : Type 0) → Bool → List Bool → Result (Gathering (Command A))
unfolding gather_tasks
execute_parallel A is_dict branches =
    if is_dict then ok (gather_tasks (length branches)) else raise type_error

abbrev pub ok_of : {X : Type 0} → Result X → Option X
ok_of (ok x) = some x
ok_of (raise e) = none

module _ {A : Type 0} where
  first_of :
      (c : Command A) (o : Result (List (Command A)))
      → ok_of (o >>= λ cs. ok (c ∷ cs)) ≡ Option.map (λ cs. c ∷ cs) (ok_of o)
  first_of c (ok cs) = refl
  first_of c (raise e) = refl

  -- The tasks of branches that have all returned give the commands of `parallel_execute`, in the order
  -- of the branches, and give none where one result is not a command.
  pub all_results-parallel_execute :
      (rs : List (NodeResult A))
      → all_results (map (λ r. finished (wrap_func (ok r))) rs) ≡ ok_of (parallel_execute rs)
  unfolding parallel_execute
  all_results-parallel_execute [] = refl
  all_results-parallel_execute (r ∷ rs) =
      each (normalise_node_result r) (all_results-parallel_execute rs)
    where
      tasks : List (Task (Command A))
      tasks = map (λ q. finished (wrap_func (ok q))) rs

      each :
          (q : Result (Command A))
          → all_results tasks ≡ ok_of (parallel_execute rs)
          → all_results (finished q ∷ tasks)
            ≡ ok_of (q >>= λ c. parallel_execute rs >>= λ cs. ok (c ∷ cs))
      each (raise e) h = refl
      each (ok c) h = ap (Option.map (λ cs. c ∷ cs)) h ∙ sym (first_of c (parallel_execute rs))
