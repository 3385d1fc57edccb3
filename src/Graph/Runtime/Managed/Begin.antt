-- ===== src/Graph/Runtime/Managed/Begin.antt =====
-- `_begin_invocation` and the set of running contexts (source/apixis/core/graph/node_graph.py).
use apixis.Base.{
  ℕ, String, true, false, not, List, Option, none, some, Result, ok, raise, ◌>>◌, reject, >>=-eq-ok,
  invalid_context, contains, without, nat_eq, string_eq, eq_true, ◌==◌, if_cases, Bool-cases, ◌≡◌,
  refl, sym, ap, subst, arith, inl, inr, ◌∙◌,
}
use apixis.Base.Dict.{get}
use apixis.Graph.Commands.{Target}
use apixis.Graph.Context.{
  is_running, is_pending, bind, transition_to, Status, pending, running, failed, aborted, finished,
  waiting,
}
use apixis.Graph.Runtime.{
  NodeGraph, Runtime, write_back, manage, admit, start_when, start_context, start_stored,
  start_created, begin_from, begin_invocation, create_context, StateArgument, ContextArgument,
  no_state, other_state, dict_state, no_context, other_context, a_context,
}
use apixis.Graph.Runtime.Managed.{Attempt, Managed}
use apixis.Graph.Runtime.Managed.Steps.{start-IsManaged}

pending_status : (s : Status) → is_pending s ≡ true → s ≡ pending
pending_status pending h = refl
pending_status running h = cc h
pending_status failed h = cc h
pending_status aborted h = cc h
pending_status finished h = cc h

module _ {A : Type 0} where
  -- A pending context after `_bind`.
  abbrev pub bound : String → (List ℕ → List ℕ) → Attempt A → Attempt A
  bound run_id f c = record c {
    run_id = some run_id;
    completion = some waiting;
    status = running;
    on_terminal = some f;
  }

  pub bind_pending :
      (run_id : String) (f : List ℕ → List ℕ) (c : Attempt A) (ids : List ℕ)
      → is_pending c.status ≡ true
      → bind run_id (some f) (c, ids) ≡ ((bound run_id f c, ids), ok tt)
  unfolding bind transition_to
  bind_pending run_id f c ids h =
      subst
        (λ s.
          bind run_id (some f) (record c { status = s }, ids) ≡ ((bound run_id f c, ids), ok tt))
        (sym (pending_status c.status h)) refl

  admitted :
      (g : NodeGraph) (c : Attempt A) (t : Target)
      → admit g c ≡ ok t
      → (c.graph_id ≡ g.graph_id) × (is_pending c.status ≡ true)
  admitted g c t h =
      let (u, checks, rest) =
        >>=-eq-ok
          (reject (not (c.graph_id == g.graph_id)) invalid_context
            >> reject (not (is_pending c.status)) invalid_context)
          _ h in
      ground (arith, checks, eq_true c.graph_id g.graph_id)

  absent-contains :
      (i : ℕ) (rt : Runtime A)
      → Managed rt
      → get i rt.store ≡ none
      → contains i rt.graph.contexts ≡ false
  unfolding Managed
  absent-contains i rt m at = elim (Bool-cases (contains i rt.graph.contexts)) [
    | inl h ↦ cc (at, m.present i h)
    | inr h ↦ h
  ]

  start_context-Managed :
      (run_id : String) (i : ℕ) (c : Attempt A) (rt : Runtime A)
      → (is_pending c.status ≡ true → contains i rt.graph.contexts ≡ false)
      → Managed rt
      → Managed (start_context run_id i c rt).0
  unfolding start_context Managed
  start_context-Managed run_id i c rt new m = started (admit rt.graph c) refl
    where
      started : (q : Result Target) → admit rt.graph c ≡ q → Managed (start_when q run_id i c rt).0
      started (raise e) h = m
      started (ok t) h =
          subst (λ q. Managed (manage i (write_back i rt q.0, q.1)).0)
            (sym (bind_pending run_id (without i) c rt.graph.contexts (checks.1)))
            (start-IsManaged rt.graph.graph_id rt.graph.contexts rt.store i m
              (bound run_id (without i) c) (new checks.1) refl refl refl checks.0)
        where
          checks : (c.graph_id ≡ rt.graph.graph_id) × (is_pending c.status ≡ true)
          checks = admitted rt.graph c t h

  pub begin_invocation-Managed :
      (deepcopy : A → A) (run_id : String) (new : ℕ) (s : StateArgument A) (c : ContextArgument)
      (rt : Runtime A)
      → get new rt.store ≡ none
      → Managed rt
      → Managed (begin_invocation deepcopy run_id new s c rt).0
  unfolding begin_invocation Managed
  begin_invocation-Managed deepcopy run_id new s c rt at m =
      if_cases (λ (q : Runtime A × Result ℕ). Managed q.0) rt.graph.decomposed _ _ (λ yes'. m)
        (λ no'. begun s c)
    where
      created : (q : Result (Attempt A)) → Managed (start_created q run_id new rt).0
      created (raise e) = m
      created (ok d) = start_context-Managed run_id new d rt (λ h. absent-contains new rt m at) m

      idle :
          (i : ℕ) (d : Attempt A)
          → get i rt.store ≡ some d
          → is_pending d.status ≡ true
          → contains i rt.graph.contexts ≡ false
      idle i d h p = (m.tracked i d h).1 ∙ ap is_running (pending_status d.status p)

      found :
          (i : ℕ) (o : Option (Attempt A))
          → get i rt.store ≡ o
          → Managed (start_stored o run_id i rt).0
      found i none h = m
      found i (some d) h = start_context-Managed run_id i d rt (idle i d h) m

      begun :
          (s : StateArgument A) (c : ContextArgument)
          → Managed (begin_from deepcopy run_id new s c rt).0
      begun (dict_state s) no_context = created (create_context deepcopy rt.graph s)
      begun (dict_state s) other_context = m
      begun (dict_state s) (a_context i) = m
      begun no_state no_context = m
      begun no_state other_context = m
      begun no_state (a_context i) = found i (get i rt.store) refl
      begun other_state no_context = m
      begun other_state other_context = m
      begun other_state (a_context i) = m
