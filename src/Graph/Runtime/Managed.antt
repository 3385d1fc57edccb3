-- ===== src/Graph/Runtime/Managed.antt =====
-- The set `_contexts` of a graph (source/apixis/core/graph/node_graph.py) beside the contexts that its
-- callers hold, over any sequence of operations of the graph and of the contexts.
pub mod Follows
pub mod Steps
pub mod Begin
pub mod Reach
pub mod Decompose
mod Examples
use apixis.Base.{
  ℕ, String, Bool, true, false, List, [], ◌∷◌, ◌++◌, Option, none, some, Result, ok, Error, is_some,
  contains, without, contains-without, contains-append, IsUnique, IsUnique-without, IsUnique-snoc,
  nat_eq, eq_true, eq_self, ◌==◌, string_eq, if_cases, Bool-cases, ◌≡◌, refl, sym, ap, subst, arith,
  ◌⊎◌, inl, inr, ◌∙◌, if◌then◌else◌,
}
use apixis.Base.Int.{ℤ}
use apixis.Base.Dict.{Dict, get, put, get-put}
use apixis.Graph.State.{State}
use apixis.Graph.Command.{Goto}
use apixis.Graph.Context.{
  Status, pending, running, failed, aborted, finished, Completion, GraphContext, World, is_running,
  is_terminal,
}
use apixis.Graph.Context.Life.{
  Operation, binds, targets, snapshots, commits, finishes, aborts, cancels, stops_waiting, fails,
  View, view, Live, perform,
}
use apixis.Graph.Runtime.{
  NodeGraph, Runtime, StateArgument, ContextArgument, create_context, begin_invocation, post_next,
  abort_context, finish_context, fail_context, decompose, write_back,
}
use apixis.Graph.Restore.{Source, restore_context}

-- A context that a caller or the graph holds, and all of them by number.
abbrev pub Attempt : Type 0 → Type 0
Attempt A = GraphContext A (List ℕ)

abbrev pub Store : Type 0 → Type 0
Store A = Dict ℕ (Attempt A)

-- The context `i` and the set of running contexts: `i` is in the set exactly when it runs, and then
-- its end calls `discard` of the set.
abbrev pub Tracked : {A : Type 0} → ℕ → View A (List ℕ) → Type 0
Tracked i v =
    Live v × (contains i v.3 ≡ is_running v.0) × (is_running v.0 ≡ true → v.2 ≡ some (without i))

pub record IsManaged {A : Type 0} (own : String) (ids : List ℕ) (store : Store A) : Type 0 where
  pub unique : IsUnique ids
  pub present : (i : ℕ) → contains i ids ≡ true → is_some (get i store) ≡ true
  pub tracked : (i : ℕ) (c : Attempt A) → get i store ≡ some c → Tracked i (view (c, ids))
  pub owned :
      (i : ℕ) (c : Attempt A) → get i store ≡ some c → is_running c.status ≡ true → c.graph_id ≡ own

unfoldable pub Managed : {A : Type 0} → Runtime A → Type 0
Managed rt = IsManaged rt.graph.graph_id rt.graph.contexts rt.store

-- Operations of a context other than `_bind`, which only `_begin_invocation` calls.
abbrev pub IsAfterStart : {A R : Type 0} → Operation A R → Type 0
IsAfterStart (binds run_id f) = ⊥
IsAfterStart _ = Unit

-- One step: a context that `create_context` or `restore_context` gives to a caller, an operation of
-- the graph, or one of a context that it or a caller makes.
pub data GraphStep {A : Type 0} (deepcopy : A → A) (rt : Runtime A) : Runtime A → Type 0 where
  creates :
      (i : ℕ) (s : State A) (c : Attempt A)
      → get i rt.store ≡ none
      → create_context deepcopy rt.graph s ≡ ok c
      → GraphStep deepcopy rt (record rt { store = put i c rt.store })
  restores :
      (i : ℕ) (source : Source A (List ℕ)) (version : ℤ) (c : Attempt A)
      → get i rt.store ≡ none
      → restore_context deepcopy rt.graph source version ≡ ok c
      → GraphStep deepcopy rt (record rt { store = put i c rt.store })
  begins :
      (run_id : String) (i : ℕ) (s : StateArgument A) (c : ContextArgument)
      → get i rt.store ≡ none
      → GraphStep deepcopy rt (begin_invocation deepcopy run_id i s c rt).0
  posts :
      (t : Goto) (i : ℕ) (c : Attempt A)
      → get i rt.store ≡ some c
      → GraphStep deepcopy rt (post_next t i c rt).0
  finishes_run :
      (i : ℕ) (c : Attempt A)
      → get i rt.store ≡ some c
      → GraphStep deepcopy rt (finish_context i c rt).0
  fails_run :
      (e : Error) (i : ℕ) (c : Attempt A)
      → get i rt.store ≡ some c
      → GraphStep deepcopy rt (fail_context e i c rt).0
  aborts_run :
      (i : ℕ) (c : Attempt A)
      → get i rt.store ≡ some c
      → GraphStep deepcopy rt (abort_context i c rt).0
  operates :
      (op : Operation A (List ℕ)) (i : ℕ) (c : Attempt A)
      → IsAfterStart op
      → get i rt.store ≡ some c
      → GraphStep deepcopy rt (write_back i rt (perform deepcopy op (c, rt.graph.contexts)))
  decomposes : (force : Bool) → GraphStep deepcopy rt (decompose force rt).0

pub data GraphReach {A : Type 0} (deepcopy : A → A) (rt : Runtime A) : Runtime A → Type 0 where
  here : GraphReach deepcopy rt rt
  next :
      {u v : Runtime A}
      → GraphReach deepcopy rt u
      → GraphStep deepcopy u v
      → GraphReach deepcopy rt v
