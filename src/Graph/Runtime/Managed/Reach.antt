-- ===== src/Graph/Runtime/Managed/Reach.antt =====
-- The set of running contexts of a graph, over its whole life (source/apixis/core/graph/node_graph.py).
use apixis.Base.{
  ℕ, String, Bool, true, false, not, ◌&&◌, ◌||◌, List, [], ◌∷◌, Option, none, some, Result, ok,
  raise, Error, ◌>>=◌, >>=-eq-ok, runtime_error, value_error, nat_eq, string_eq, ◌==◌, ◌≡◌, refl,
  arith, inl, if◌then◌else◌,
}
use apixis.Base.Int.{ℤ, pos}
use apixis.Graph.State.{State}
use apixis.Base.Dict.{get}
use apixis.Graph.Command.{Goto}
use apixis.Graph.Commands.{Target, for_each, continue}
use apixis.Graph.Context.{Snapshot, is_running, is_pending, pending, abort, finish, fail}
use apixis.Graph.Context.Life.{perform, aborts, finishes, fails}
use apixis.Graph.Runtime.{
  NodeGraph, Runtime, on_context, create_context, validate_target, int, is_active_context, is_empty,
  abort_context, finish_context, fail_context, posted_to, post_next, abort_stored, abort_running,
  decompose,
}
use apixis.Graph.Restore.{Source, validate_all, selected_history, restore_context, restored}
use apixis.Graph.Runtime.Managed.{
  Attempt, Managed, GraphStep, creates, restores, begins, posts, finishes_run, fails_run,
  aborts_run, operates, decomposes, GraphReach, here, next,
}
use apixis.Graph.Runtime.Managed.Steps.{change-IsManaged, new-IsManaged, operate-Managed}
use apixis.Graph.Runtime.Managed.Begin.{begin_invocation-Managed}

unless_raised :
    {X : Type 0} (b : Bool) (e : Error) (m : Result X) {x : X}
    → (if b then raise e else m) ≡ ok x
    → m ≡ ok x
unless_raised true e m h = cc h
unless_raised false e m h = h

module _ {A : Type 0} where
  either :
      (b : Bool) (x y : Runtime A × Result (Unit {0}))
      → Managed x.0
      → Managed y.0
      → Managed (if b then x else y).0
  either true x y h k = h
  either false x y h k = k

  module _ (deepcopy : A → A) (i : ℕ) (c : Attempt A) (rt : Runtime A)
      (at : get i rt.store ≡ some c) (m : Managed rt) where
    post_next-Managed : (t : Goto) → Managed (post_next t i c rt).0
    unfolding post_next Managed
    post_next-Managed t = posted (validate_target rt.graph t (int (pos c.steps)))
      where
        posted : (q : Result Target) → Managed (posted_to i rt c q).0
        posted (raise e) = m
        posted (ok u) =
            change-IsManaged rt.graph.graph_id rt.graph.contexts rt.store i m c _ _ at
              (m.tracked i c at, inl refl) refl

    finish_context-Managed : Managed (finish_context i c rt).0
    unfolding finish_context perform
    finish_context-Managed =
        either (is_active_context rt i c) (on_context i finish rt c) (rt, ok tt)
          (operate-Managed deepcopy finishes i c rt tt at m) m

    fail_context-Managed : (e : Error) → Managed (fail_context e i c rt).0
    unfolding fail_context perform
    fail_context-Managed e =
        either (is_active_context rt i c) (on_context i (fail e) rt c) (rt, ok tt)
          (operate-Managed deepcopy (fails e) i c rt tt at m) m

    abort_context-Managed : Managed (abort_context i c rt).0
    unfolding abort_context perform
    abort_context-Managed =
        either rt.graph.decomposed (rt, raise runtime_error) _ m
          (either (not (is_running c.status || is_pending c.status)) (rt, ok tt) _ m
            (either (not (c.graph_id == rt.graph.graph_id)) (rt, raise value_error)
              (on_context i abort rt c) m (operate-Managed deepcopy aborts i c rt tt at m)))

  pub abort_running-Managed : (rt : Runtime A) (i : ℕ) → Managed rt → Managed (abort_running rt i).0
  unfolding abort_running perform
  abort_running-Managed rt i m = found (get i rt.store) refl
    where
      found : (o : Option (Attempt A)) → get i rt.store ≡ o → Managed (abort_stored rt i o).0
      found none h = m
      found (some c) h = operate-Managed (λ x. x) aborts i c rt tt h m

  continue-Managed :
      (q : Runtime A × Result (Unit {0})) (k : Runtime A → Runtime A × Result (Unit {0}))
      → Managed q.0
      → ((rt : Runtime A) → Managed rt → Managed (k rt).0)
      → Managed (continue q k).0
  continue-Managed (rt, ok u) k m h = h rt m
  continue-Managed (rt, raise e) k m h = m

  for_each-Managed :
      (is : List ℕ) (rt : Runtime A) → Managed rt → Managed (for_each abort_running is rt).0
  unfolding for_each
  for_each-Managed [] rt m = m
  for_each-Managed (i ∷ is) rt m =
      continue-Managed (abort_running rt i) (λ u. for_each abort_running is u)
        (abort_running-Managed rt i m) (for_each-Managed is)

  abbrev pub closed : Runtime A → Runtime A
  closed rt = record rt { graph = record rt.graph { decomposed = true } }

  pub closed-Managed : (rt : Runtime A) → Managed rt → Managed (closed rt)
  unfolding Managed
  closed-Managed rt m = m

  decompose-Managed : (force : Bool) (rt : Runtime A) → Managed rt → Managed (decompose force rt).0
  unfolding decompose
  decompose-Managed force rt m =
      either rt.graph.decomposed (rt, ok tt) _ m
        (either (not (is_empty rt.graph.contexts) && not force) (rt, raise runtime_error) _ m
          (for_each-Managed rt.graph.contexts (closed rt) (closed-Managed rt m)))

  -- A context as `create_context` and `restore_context` give it.
  abbrev IsNew : Attempt A → Type 0
  IsNew c = (c.status ≡ pending) × (c.completion ≡ none) × (c.on_terminal ≡ none)

  create_context-IsNew :
      (deepcopy : A → A) (g : NodeGraph) (s : State A) (c : Attempt A)
      → create_context deepcopy g s ≡ ok c
      → IsNew c
  unfolding create_context
  create_context-IsNew deepcopy g s c h = ground arith

  restored-IsNew :
      (deepcopy : A → A) (own : String) (ss : List (Snapshot A)) (c : Attempt A)
      → restored deepcopy own ss ≡ ok c
      → IsNew c
  restored-IsNew deepcopy own [] c h = cc h
  restored-IsNew deepcopy own (s ∷ ss) c h = ground arith

  restore_context-IsNew :
      (deepcopy : A → A) (g : NodeGraph) (source : Source A (List ℕ)) (version : ℤ) (c : Attempt A)
      → restore_context deepcopy g source version ≡ ok c
      → IsNew c
  unfolding restore_context
  restore_context-IsNew deepcopy g source version c h =
      let (ss, checked, given) =
        >>=-eq-ok (selected_history g.graph_id source version >>= validate_all g.graph_id)
          (restored deepcopy g.graph_id) (unless_raised g.decomposed runtime_error _ h) in
      restored-IsNew deepcopy g.graph_id ss c given

  pub step-Managed :
      (deepcopy : A → A) (rt u : Runtime A) → GraphStep deepcopy rt u → Managed rt → Managed u
  unfolding Managed
  step-Managed deepcopy rt _ (creates i s c at h) m =
      let (pend, no_future, no_callback) = create_context-IsNew deepcopy rt.graph s c h in
      new-IsManaged rt.graph.graph_id rt.graph.contexts rt.store i m c at pend no_future no_callback
  step-Managed deepcopy rt _ (restores i source version c at h) m =
      let (pend, no_future, no_callback) =
        restore_context-IsNew deepcopy rt.graph source version c h in
      new-IsManaged rt.graph.graph_id rt.graph.contexts rt.store i m c at pend no_future no_callback
  step-Managed deepcopy rt _ (begins run_id i s c at) m =
      begin_invocation-Managed deepcopy run_id i s c rt at m
  step-Managed deepcopy rt _ (posts t i c at) m = post_next-Managed deepcopy i c rt at m t
  step-Managed deepcopy rt _ (finishes_run i c at) m = finish_context-Managed deepcopy i c rt at m
  step-Managed deepcopy rt _ (fails_run e i c at) m = fail_context-Managed deepcopy i c rt at m e
  step-Managed deepcopy rt _ (aborts_run i c at) m = abort_context-Managed deepcopy i c rt at m
  step-Managed deepcopy rt _ (operates op i c a at) m = operate-Managed deepcopy op i c rt a at m
  step-Managed deepcopy rt _ (decomposes force) m = decompose-Managed force rt m

  -- From a graph without contexts, whatever its callers and its runs do, its set of contexts is
  -- exactly the set of the contexts that run: an attempt stands in it once, from its accepted start to
  -- its end, however it ends.
  pub Reach-Managed :
      (deepcopy : A → A) (g : NodeGraph) (rt : Runtime A)
      → g.contexts ≡ []
      → GraphReach deepcopy (record { graph = g; store = []; posted = [] }) rt
      → Managed rt
  unfolding Managed get
  Reach-Managed deepcopy g _ e here = rw e record {
    unique = tt;
    present = λ i h. cc h;
    tracked = λ i c h. cc h;
    owned = λ i c h r. cc h;
  }
  Reach-Managed deepcopy g rt e (next {u} r s) =
      step-Managed deepcopy u rt s (Reach-Managed deepcopy g u e r)
