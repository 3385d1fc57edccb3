-- ===== src/Graph/Runtime/Managed/Decompose.antt =====
-- `NodeGraph.decompose` with `force` (source/apixis/core/graph/node_graph.py), over the contexts that the
-- callers hold.
use apixis.Base.{
  ℕ, Bool, true, false, not, ◌&&◌, List, [], ◌∷◌, Option, none, some, Result, ok, contains, without,
  without_absent, nat_eq, Option-cases, IsUnique, eq_true, eq_self, ◌==◌, Bool-cases, ◌≡◌, refl,
  sym, ap, subst, arith, inl, inr, ◌∙◌, if◌then◌else◌,
}
use mathlib.Core.Option
use apixis.Base.Dict.{get, put, get-put}
use apixis.Graph.Commands.{for_each}
use apixis.Graph.Context.{
  is_running, aborted, resolved, settle_any, latest_snapshot_state, abort, transition_to,
}
use apixis.Graph.Context.Life.{view}
use apixis.Graph.Runtime.{Runtime, is_empty, write_back, abort_running, decompose}
use apixis.Graph.Run.Ends.{running_status}
use apixis.Graph.Runtime.Managed.{Attempt, Tracked, Managed}
use apixis.Graph.Runtime.Managed.Reach.{closed, closed-Managed, abort_running-Managed}

forced : (b : Bool) → (not b && false) ≡ false
forced true = refl
forced false = refl

module _ {A : Type 0} where
  -- A context after `decompose`: aborted, if it was running, with its last checkpoint as its result.
  abbrev pub stopped : Attempt A → Attempt A
  stopped c = record c {
    status = aborted;
    on_terminal = none;
    completion = settle_any (resolved (latest_snapshot_state c)) c.completion;
  }

  abbrev pub ended : Attempt A → Attempt A
  ended c = if is_running c.status then stopped c else c

  abort_lem :
      (c : Attempt A) (f : List ℕ → List ℕ) (ids : List ℕ)
      → is_running c.status ≡ true
      → c.on_terminal ≡ some f
      → abort (c, ids) ≡ ((stopped c, f ids), ok tt)
  unfolding abort transition_to latest_snapshot_state
  abort_lem c f ids r t =
      subst (λ t. abort (record c { on_terminal = t }, ids) ≡ ((stopped c, f ids), ok tt)) (sym t)
        (subst
          (λ s.
            abort (record c { status = s; on_terminal = some f }, ids)
            ≡ ((stopped c, f ids), ok tt))
          (sym (running_status c.status r)) refl)

  ended_twice : (c : Attempt A) → ended (ended c) ≡ ended c
  ended_twice c = ground arith

  -- One turn of the loop, on the first of the running contexts.
  abort_running_lem :
      (rt : Runtime A) (i : ℕ) (is : List ℕ) (c : Attempt A)
      → Managed rt
      → rt.graph.contexts ≡ i ∷ is
      → get i rt.store ≡ some c
      → abort_running rt i ≡ (write_back i rt (ended c, is), ok tt)
  unfolding abort_running Managed
  abort_running_lem rt i is c m e at =
      rw (at, abort_lem c (without i) rt.graph.contexts run (t.2 run), run, left) refl
    where
      t : Tracked i (view (c, rt.graph.contexts))
      t = m.tracked i c at

      run : is_running c.status ≡ true
      run = sym t.1 ∙ ap (contains i) e ∙ ground (arith, eq_self i)

      left : without i rt.graph.contexts ≡ is
      left =
          ap (without i) e
          ∙ ground (arith, eq_self i, without_absent i is (subst IsUnique e m.unique).0)

  -- Without contexts of its own that run, a graph has nothing to abort.
  ended_idle :
      (rt : Runtime A) (i : ℕ)
      → Managed rt
      → rt.graph.contexts ≡ []
      → Option.map ended (get i rt.store) ≡ get i rt.store
  unfolding Managed
  ended_idle rt i m e = idle (get i rt.store) refl
    where
      idle : (o : Option (Attempt A)) → get i rt.store ≡ o → Option.map ended o ≡ o
      idle none h = refl
      idle (some c) h =
          ap (λ b. some (if b then stopped c else c))
            (sym ((m.tracked i c h).1) ∙ ap (contains i) e)

  ended-put :
      (rt : Runtime A) (i j : ℕ) (c : Attempt A)
      → get i rt.store ≡ some c
      → Option.map ended (get j (put i (ended c) rt.store)) ≡ Option.map ended (get j rt.store)
  ended-put rt i j c at = elim (Bool-cases (i == j)) [
    | inl e ↦
        rw (get-put i j (ended c) rt.store, e, sym (eq_true i j e), at) (ap some (ended_twice c))
    | inr e ↦ rw (get-put i j (ended c) rt.store, e) refl
  ]

  -- What `decompose` leaves of the runtime `rt`, with its outcome.
  pub record IsStopped (rt : Runtime A) (q : Runtime A × Result (Unit {0})) : Type 0 where
    pub succeeds : q.1 ≡ ok tt
    pub emptied : q.0.graph.contexts ≡ []
    pub invalid : q.0.graph.decomposed ≡ rt.graph.decomposed
    pub stops : (i : ℕ) → get i q.0.store ≡ Option.map ended (get i rt.store)

  -- What the rest of the loop leaves, from the contexts after its first turn.
  IsStopped-turn :
      (rt : Runtime A) (i : ℕ) (is : List ℕ) (c : Attempt A) (q : Runtime A × Result (Unit {0}))
      → get i rt.store ≡ some c
      → IsStopped (write_back i rt (ended c, is)) q
      → IsStopped rt q
  IsStopped-turn rt i is c q at h = record {
    succeeds = h.succeeds;
    emptied = h.emptied;
    invalid = h.invalid;
    stops = λ j. h.stops j ∙ ended-put rt i j c at;
  }

  first_stored :
      (rt : Runtime A) (i : ℕ) (is : List ℕ)
      → Managed rt
      → rt.graph.contexts ≡ i ∷ is
      → (c : Attempt A) × (get i rt.store ≡ some c)
  unfolding Managed
  first_stored rt i is m e = elim (Option-cases (get i rt.store)) [
    | inl h ↦ cc (h, m.present i (ap (contains i) e ∙ ground (arith, eq_self i)))
    | inr h ↦ h
  ]

  loop_lem :
      (is : List ℕ) (rt : Runtime A)
      → Managed rt
      → rt.graph.contexts ≡ is
      → IsStopped rt (for_each abort_running is rt)
  unfolding for_each
  loop_lem [] rt m e = record {
    succeeds = refl;
    emptied = e;
    invalid = refl;
    stops = λ i. sym (ended_idle rt i m e);
  }
  loop_lem (i ∷ is) rt m e =
      let (c, at) = first_stored rt i is m e in
      let turn = abort_running_lem rt i is c m e at in
      let after : Managed (write_back i rt (ended c, is)) =
        subst (λ (q : Runtime A × Result (Unit {0})). Managed q.0) turn
          (abort_running-Managed rt i m) in
      rw (turn)
        (IsStopped-turn rt i is c _ at (loop_lem is (write_back i rt (ended c, is)) after refl))

  -- `decompose(force=True)` of a graph that is not decomposed, over contexts as its operations leave
  -- them: it raises nothing, invalidates the graph and leaves its set of running contexts empty. Each
  -- context that was running is aborted, with its latest checkpoint as the result its caller waits
  -- for, unless that wait is over; every other context is as before.
  pub decompose_lem :
      (rt : Runtime A)
      → Managed rt
      → rt.graph.decomposed ≡ false
      → IsStopped (closed rt) (decompose true rt)
  unfolding decompose
  decompose_lem rt m open_graph =
      rw (open_graph, forced (is_empty rt.graph.contexts))
        (loop_lem rt.graph.contexts (closed rt) (closed-Managed rt m) refl)
