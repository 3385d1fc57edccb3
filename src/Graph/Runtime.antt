-- ===== src/Graph/Runtime.antt =====
-- `NodeGraph` of source/apixis/core/graph/node_graph.py: targets, the start of a run, the graph's
-- set of running contexts, `abort` and `decompose`. Contexts are objects: each has a number, and
-- `contexts` and `store` are keyed by it.
pub mod Targets
pub mod Managed
use apixis.Base.{
  ℕ, suc, String, Bool, true, false, not, ◌&&◌, ◌||◌, List, [], ◌∷◌, ◌++◌, Option, none, some,
  Result, ok, raise, Error, ◌>>=◌, ◌>>◌, reject, value_error, type_error, runtime_error,
  recursion_error, invalid_context, ◌==◌, string_eq, nat_eq, if◌then◌else◌, contains, without,
  dedup, select, all, ltb, ◌≡◌, refl, arith,
}
use apixis.Base.Int.{ℤ, pos, negsuc}
use apixis.Base.Dict.{Dict, get, put}
use apixis.Graph.State.{State, Policies, copy_state}
use apixis.Graph.Command.{Goto, nowhere, not_goto, to, to_all, end_name}
use apixis.Graph.Commands.{Target, one, batch, for_each}
use apixis.Graph.Context.{
  GraphContext, World, Status, is_pending, is_running, fresh, bind, abort, finish, fail,
}

pub record NodeGraph : Type 0 where
  pub graph_id : String
  pub nodes : List String
  pub entry_point : Target
  pub max_steps : ℕ
  pub policies : Policies
  pub no_snapshot : Bool
  pub contexts : List ℕ
  pub decomposed : Bool

-- A number of steps: an `int`, or a `bool` or another value.
pub data Steps : Type 0 where
  int : ℤ → Steps
  not_int : Steps

-- `_normalise_targets`: the batch that a target is.
unfoldable pub normalise_targets : Goto → Result (List String)
normalise_targets (to name) = ok (name ∷ [])
normalise_targets (to_all (name ∷ names)) = ok (name ∷ names)
normalise_targets _ = raise type_error

abbrev pub known : NodeGraph → List String → Result (Unit {0})
known g names = reject (not (all (λ n. contains n g.nodes) names)) value_error

abbrev normalise_batch : NodeGraph → List String → Result Target
normalise_batch g [] = ok (one end_name)
normalise_batch g (n ∷ names) = known g (n ∷ names) >> ok (batch (n ∷ names))

-- `_normalise_target`
unfoldable pub normalise_target : NodeGraph → Goto → Result Target
normalise_target g nowhere = ok (one end_name)
normalise_target g not_goto = raise type_error
normalise_target g (to name) =
    if name == end_name then ok (one end_name) else known g (name ∷ []) >> ok (one name)
normalise_target g (to_all names) =
    normalise_batch g (dedup (select (λ n. not (n == end_name)) names))

abbrev pub is_end : Target → Bool
is_end (one name) = name == end_name
is_end (batch names) = false

abbrev within_budget : NodeGraph → ℕ → Target → Result Target
within_budget g n t =
    if not (is_end t) && not (ltb n g.max_steps) then raise recursion_error else ok t

-- `_validate_target`
unfoldable pub validate_target : NodeGraph → Goto → Steps → Result Target
unfolding normalise_target
validate_target g t not_int = raise type_error
validate_target g t (int (negsuc n)) = raise value_error
validate_target g t (int (pos n)) = normalise_target g t >>= within_budget g n

abbrev pub as_goto : Target → Goto
as_goto (one name) = to name
as_goto (batch names) = to_all names

-- The graph, the contexts that callers and the graph hold, and the dispatches posted for them.
pub record Runtime (A : Type 0) : Type 0 where
  pub graph : NodeGraph
  pub store : Dict ℕ (GraphContext A (List ℕ))
  pub posted : List ℕ

pub data StateArgument (A : Type 0) : Type 0 where
  no_state other_state : StateArgument A
  dict_state : State A → StateArgument A

pub data ContextArgument : Type 0 where
  no_context other_context : ContextArgument
  a_context : ℕ → ContextArgument

abbrev pub add_context : ℕ → List ℕ → List ℕ
add_context i ids = if contains i ids then ids else ids ++ i ∷ []

abbrev is_empty : {X : Type 0} → List X → Bool
is_empty [] = true
is_empty (x ∷ xs) = false

-- A maximum below 0 allows no step, as 0 does.
abbrev pub natural : ℤ → ℕ
natural (pos n) = n
natural (negsuc n) = 0

-- `set_max_steps`
unfoldable pub set_max_steps : ℤ → NodeGraph → Result NodeGraph
set_max_steps steps g =
    reject g.decomposed runtime_error >> ok (record g { max_steps = natural steps })

module _ {A : Type 0} where
  -- An operation on the context `i`, which may call the graph's `contexts.discard`.
  abbrev pub write_back : ℕ → Runtime A → World A (List ℕ) → Runtime A
  write_back i rt (c, running) = record rt {
    graph = record rt.graph { contexts = running };
    store = put i c rt.store;
  }

  abbrev pub on_context :
      ℕ
      → (World A (List ℕ) → World A (List ℕ) × Result (Unit {0}))
      → Runtime A
      → GraphContext A (List ℕ)
      → Runtime A × Result (Unit {0})
  on_context i op rt c = let (w, result) = op (c, rt.graph.contexts) in (write_back i rt w, result)

  unfoldable pub create_context : (A → A) → NodeGraph → State A → Result (GraphContext A (List ℕ))
  create_context deepcopy g s =
      if g.decomposed
      then raise runtime_error
      else ok (record (fresh g.graph_id) {
        state = copy_state deepcopy s g.policies.keep_ref_keys;
        target_node_name = g.entry_point;
      })

  -- `_is_active_context`
  unfoldable pub is_active_context : Runtime A → ℕ → GraphContext A (List ℕ) → Bool
  is_active_context rt i c =
      not rt.graph.decomposed
      && (c.graph_id == rt.graph.graph_id && (contains i rt.graph.contexts && is_running c.status))

  abbrev admit : NodeGraph → GraphContext A (List ℕ) → Result Target
  admit g c =
      reject (not (c.graph_id == g.graph_id)) invalid_context
      >> reject (not (is_pending c.status)) invalid_context
      >> validate_target g (as_goto c.target_node_name) (int (pos c.steps))

  abbrev pub manage : ℕ → Runtime A × Result (Unit {0}) → Runtime A × Result ℕ
  manage i (rt, ok tt) =
      (record rt { graph = record rt.graph { contexts = add_context i rt.graph.contexts } }, ok i)
  manage i (rt, raise e) = (rt, raise e)

  abbrev start_when :
      Result Target → String → ℕ → GraphContext A (List ℕ) → Runtime A → Runtime A × Result ℕ
  start_when (raise e) run_id i c rt = (rt, raise e)
  start_when (ok t) run_id i c rt = manage i (on_context i (bind run_id (some (without i))) rt c)

  -- The checks of `_begin_invocation` on a context, and its start.
  unfoldable pub start_context :
      String → ℕ → GraphContext A (List ℕ) → Runtime A → Runtime A × Result ℕ
  unfolding validate_target
  start_context run_id i c rt = start_when (admit rt.graph c) run_id i c rt

  abbrev start_stored :
      Option (GraphContext A (List ℕ)) → String → ℕ → Runtime A → Runtime A × Result ℕ
  start_stored none run_id i rt = (rt, raise type_error)
  start_stored (some c) run_id i rt = start_context run_id i c rt

  abbrev start_created :
      Result (GraphContext A (List ℕ)) → String → ℕ → Runtime A → Runtime A × Result ℕ
  start_created (raise e) run_id i rt = (rt, raise e)
  start_created (ok c) run_id i rt = start_context run_id i c rt

  abbrev begin_from :
      (A → A) → String → ℕ → StateArgument A → ContextArgument → Runtime A → Runtime A × Result ℕ
  begin_from deepcopy run_id new (dict_state s) no_context rt =
      start_created (create_context deepcopy rt.graph s) run_id new rt
  begin_from deepcopy run_id new no_state (a_context i) rt =
      start_stored (get i rt.store) run_id i rt
  begin_from deepcopy run_id new _ _ rt = (rt, raise type_error)

  -- `_begin_invocation`, where `new` is the number of the context it creates.
  unfoldable pub begin_invocation :
      (A → A) → String → ℕ → StateArgument A → ContextArgument → Runtime A → Runtime A × Result ℕ
  unfolding create_context start_context
  begin_invocation deepcopy run_id new s c rt =
      if rt.graph.decomposed
      then (rt, raise runtime_error)
      else begin_from deepcopy run_id new s c rt

  abbrev posted_to :
      ℕ → Runtime A → GraphContext A (List ℕ) → Result Target → Runtime A × Result (Unit {0})
  posted_to i rt c (raise e) = (rt, raise e)
  posted_to i rt c (ok t) = (
    record rt {
      store = put i (record c { target_node_name = t }) rt.store;
      posted = rt.posted ++ i ∷ [];
    },
    ok tt,
  )

  -- `_post_next`
  pub post_next : Goto → ℕ → GraphContext A (List ℕ) → Runtime A → Runtime A × Result (Unit {0})
  unfolding validate_target
  post_next t i c rt = posted_to i rt c (validate_target rt.graph t (int (pos c.steps)))

  -- `NodeGraph.abort`
  pub abort_context : ℕ → GraphContext A (List ℕ) → Runtime A → Runtime A × Result (Unit {0})
  unfolding abort
  abort_context i c rt =
      if rt.graph.decomposed
      then (rt, raise runtime_error)
      else if not (is_running c.status || is_pending c.status)
      then (rt, ok tt)
      else if not (c.graph_id == rt.graph.graph_id)
      then (rt, raise value_error)
      else on_context i abort rt c

  -- `NodeGraph._finish` and `NodeGraph._fail`
  pub finish_context : ℕ → GraphContext A (List ℕ) → Runtime A → Runtime A × Result (Unit {0})
  unfolding is_active_context finish
  finish_context i c rt = if is_active_context rt i c then on_context i finish rt c else (rt, ok tt)

  pub fail_context : Error → ℕ → GraphContext A (List ℕ) → Runtime A → Runtime A × Result (Unit {0})
  unfolding is_active_context fail
  fail_context e i c rt =
      if is_active_context rt i c then on_context i (fail e) rt c else (rt, ok tt)

  abbrev pub abort_stored :
      Runtime A → ℕ → Option (GraphContext A (List ℕ)) → Runtime A × Result (Unit {0})
  abort_stored rt i none = (rt, ok tt)
  abort_stored rt i (some c) = on_context i abort rt c

  -- The body of the loop of `decompose` over the contexts that were running.
  pub abort_running : Runtime A → ℕ → Runtime A × Result (Unit {0})
  unfolding abort
  abort_running rt i = abort_stored rt i (get i rt.store)

  pub decompose : Bool → Runtime A → Runtime A × Result (Unit {0})
  unfolding abort_running
  decompose force rt =
      if rt.graph.decomposed
      then (rt, ok tt)
      else if not (is_empty rt.graph.contexts) && not force
      then (rt, raise runtime_error)
      else for_each abort_running rt.graph.contexts
          (record rt { graph = record rt.graph { decomposed = true } })
