-- ===== src/Graph/Invoke/Ended.antt =====
-- The end of an invocation (source/apixis/core/graph/node_graph.py) over the life of its context.
use apixis.Base.{
  ℕ, String, Bool, true, false, List, [], ◌∷◌, Option, none, some, Result, Error, if_cases, ok,
  raise, cancelled_error, contains, eq_self, ◌==◌, ◌≡◌, refl, ap, subst, ◌∙◌, arith, without,
  nat_eq, string_eq,
}
use apixis.Graph.State.{State}
use apixis.Graph.Context.{
  pending, running, failed, aborted, finished, Completion, waiting, cancelled, resolved, raised,
  GraphContext, World, is_running, is_pending, bind,
}
use apixis.Graph.Context.Life.{Operation, cancels, fails, View, view, perform, run}
use apixis.Graph.Context.Life.Ends.{CallsOnce, CallsOnce-Live, run-CallsOnce}
use apixis.Graph.Run.Ends.{HasEnded, cancel-HasEnded, fail-HasEnded}
use apixis.Graph.Invoke.Open.{is_open, Open, Open-ended, run-Open, CallsOnce-is_some}
use apixis.Graph.Invoke.{
  cancelled_if_running, invoked, end_invoke, begin_invoke, first_posted, waited_for, invoke_context,
}
use apixis.Graph.Commands.{Added}
use apixis.Graph.Runtime.{NodeGraph}
use apixis.Graph.Runtime.Managed.Begin.{bound, bind_pending}
use apixis.Graph.Runtime.Managed.Follows.{perform-graph_id}
use apixis.Graph.Run.{active, fail_active}

module _ {A : Type 0} (add : A → A → Added A) (deepcopy : A → A) (g : NodeGraph) (i : ℕ) where
  -- `_fail` leaves a context alone that does not run.
  fail_active-ended :
      (e : Error) (w : World A (List ℕ)) → HasEnded w → fail_active add deepcopy g i e w ≡ w
  fail_active-ended e (c, ids) h = ground (arith, h)

  -- The end of a run whose callback takes its number out of the set `ids`.
  abbrev pub Over : List ℕ → World A (List ℕ) → Type 0
  Over ids w = HasEnded w × CallsOnce (without i) ids (view w)

  cancelled-Over :
      (ids : List ℕ) (w : World A (List ℕ))
      → CallsOnce (without i) ids (view w)
      → Over ids (cancelled_if_running w)
  unfolding run perform
  cancelled-Over ids w once =
      if_cases (Over ids) (is_running w.0.status) _ _
        (λ runs. (
          cancel-HasEnded w.0 w.1 runs,
          run-CallsOnce deepcopy (without i) ids (cancels ∷ []) w once,
        ))
        (λ over. (over, once))

  -- Where no result is open, the run is over.
  closed-Over :
      (ids : List ℕ) (w : World A (List ℕ)) (k : Option (Completion A))
      → w.0.completion ≡ k
      → is_open k ≡ false
      → Open (view w)
      → CallsOnce (without i) ids (view w)
      → Over ids w
  closed-Over ids w k at shut open_run once =
      (Open-ended (view w) open_run (ap is_open at ∙ shut), once)

  invoked-Over :
      (keep : List String) (ids : List ℕ) (w : World A (List ℕ)) (k : Option (Completion A))
      (w' : World A (List ℕ)) (r : Result (State A))
      → w.0.completion ≡ k
      → Open (view w)
      → CallsOnce (without i) ids (view w)
      → invoked deepcopy keep (fail_active add deepcopy g i) w k ≡ some (w', r)
      → Over ids w'
  invoked-Over keep ids w none w' r at o once h =
      cc (CallsOnce-is_some (without i) ids (view w) once, at)
  invoked-Over keep ids w (some waiting) w' r at o once h = cc h
  invoked-Over keep ids w (some (resolved s)) w' r at o once h =
      let same : w ≡ w' = cc h in
      subst (Over ids) same (closed-Over ids w (some (resolved s)) at refl o once)
  invoked-Over keep ids w (some (raised e)) w' r at o once h =
      let over = closed-Over ids w (some (raised e)) at refl o once in
      let same : w ≡ w' = cc (h, fail_active-ended e w over.0) in subst (Over ids) same over
  invoked-Over keep ids w (some cancelled) w' r at o once h =
      let same : cancelled_if_running w ≡ w' = cc h in
      subst (Over ids) same (cancelled-Over ids w once)

  failed-Over :
      (e : Error) (ids : List ℕ) (w : World A (List ℕ))
      → (is_running w.0.status ≡ true → active add deepcopy g i w ≡ true)
      → CallsOnce (without i) ids (view w)
      → Over ids (fail_active add deepcopy g i e w)
  unfolding run perform
  failed-Over e ids w runs_known once =
      if_cases (Over ids) (active add deepcopy g i w) _ _
        (λ on. (
          fail-HasEnded e w.0 w.1 (ground (arith, on)),
          run-CallsOnce deepcopy (without i) ids (fails e ∷ []) w once,
        ))
        (λ off. (stopped (is_running w.0.status) refl off, once))
    where
      stopped :
          (b : Bool)
          → is_running w.0.status ≡ b
          → active add deepcopy g i w ≡ false
          → is_running w.0.status ≡ false
      stopped true at off = cc (runs_known at, off)
      stopped false at off = at

  run-graph_id :
      (ops : List (Operation A (List ℕ))) (w : World A (List ℕ))
      → (run deepcopy ops w).0.graph_id ≡ w.0.graph_id
  unfolding run
  run-graph_id [] w = refl
  run-graph_id (op ∷ ops) w =
      run-graph_id ops (perform deepcopy op w) ∙ perform-graph_id deepcopy op w

  CallsOnce-set :
      (f : List ℕ → List ℕ) (ids : List ℕ) (v : View A (List ℕ))
      → CallsOnce f ids v
      → is_running v.0 ≡ true
      → v.3 ≡ ids
  CallsOnce-set f ids (pending, c, h, x) once k = absurd once
  CallsOnce-set f ids (running, c, h, x) once k = once.2
  CallsOnce-set f ids (failed, c, h, x) once k = cc k
  CallsOnce-set f ids (aborted, c, h, x) once k = cc k
  CallsOnce-set f ids (finished, c, h, x) once k = cc k

  -- On a live graph a run of a context of the graph, whose number is in the set, is active.
  running-active :
      (ids : List ℕ) (w : World A (List ℕ))
      → g.decomposed ≡ false
      → w.0.graph_id ≡ g.graph_id
      → contains i ids ≡ true
      → CallsOnce (without i) ids (view w)
      → is_running w.0.status ≡ true
      → active add deepcopy g i w ≡ true
  running-active ids w live own listed once runs =
      let at : contains i w.1 ≡ true =
        ap (contains i) (CallsOnce-set (without i) ids (view w) once runs) ∙ listed in
      let same : (w.0.graph_id == g.graph_id) ≡ true =
        ap (λ s. s == g.graph_id) own ∙ eq_self g.graph_id in
      ground (arith, live, same, at, runs)

  -- An invocation of a pending context of a live graph, which starts with the set `ids` that its number is
  -- in, whatever the posting of the first dispatch comes to, and whatever happens to the context and its
  -- completion meanwhile: when `_invoke` returns or raises, the run has ended, its number has been taken
  -- out of the set, exactly once, and the completion is done.
  pub invoke_context-Over :
      (keep : List String) (run_id : String) (ids : List ℕ) (sent : List (Operation A (List ℕ)))
      (p : Result (Unit {0})) (later : List (Operation A (List ℕ))) (c : GraphContext A (List ℕ))
      (w' : World A (List ℕ)) (r : Result (State A))
      → g.decomposed ≡ false
      → c.graph_id ≡ g.graph_id
      → contains i ids ≡ true
      → is_pending c.status ≡ true
      → invoke_context deepcopy keep
          (active add deepcopy g i)
          (λ w. (run deepcopy sent w, p))
          (run deepcopy later)
          (fail_active add deepcopy g i)
          (bind run_id (some (without i)) (c, ids)).0
        ≡ some (w', r)
      → Over ids w'
  unfolding invoke_context begin_invoke end_invoke
  invoke_context-Over keep run_id ids sent p later c w' r live own listed new h =
      if_cases
        (λ q.
          waited_for (λ v. end_invoke deepcopy keep fails_with (run deepcopy later v)) q
            ≡ some (w', r)
          → Over ids w')
        (active add deepcopy g i start) (first_posted fails_with (w, p)) (start, ok tt)
        (λ on. posted p) (λ off. ends start (refl, refl, refl) refl)
        (subst
          (λ q.
            invoke_context deepcopy keep (active add deepcopy g i) (λ v. (run deepcopy sent v, p))
              (run deepcopy later) fails_with q.0
            ≡ some (w', r))
          (bind_pending run_id (without i) c ids new) h)
    where
      start : World A (List ℕ)
      start = (bound run_id (without i) c, ids)

      fails_with : Error → World A (List ℕ) → World A (List ℕ)
      fails_with = fail_active add deepcopy g i

      w : World A (List ℕ)
      w = run deepcopy sent start

      once : CallsOnce (without i) ids (view w)
      once = run-CallsOnce deepcopy (without i) ids sent start (refl, refl, refl)

      ends :
          (v : World A (List ℕ))
          → CallsOnce (without i) ids (view v)
          → Open (view v)
          → end_invoke deepcopy keep fails_with (run deepcopy later v) ≡ some (w', r)
          → Over ids w'
      ends v o open' k =
          invoked-Over keep ids (run deepcopy later v) (run deepcopy later v).0.completion w' r refl
            (run-Open deepcopy later v (CallsOnce-Live (without i) ids (view v) o) open')
            (run-CallsOnce deepcopy (without i) ids later v o) k

      raised_as :
          (v : World A (List ℕ)) (e : Error)
          → Over ids v
          → ◌≡◌ {A = Option (World A (List ℕ) × Result (State A))}
              (some (v, raise e))
              (some (w', r))
          → Over ids w'
      raised_as v e over k = let same : v ≡ w' = cc k in subst (Over ids) same over

      runs_known : is_running w.0.status ≡ true → active add deepcopy g i w ≡ true
      runs_known = running-active ids w live (run-graph_id sent start ∙ own) listed once

      posted :
          (q : Result (Unit {0}))
          → waited_for
              (λ v. end_invoke deepcopy keep fails_with (run deepcopy later v))
              (first_posted fails_with (w, q))
            ≡ some (w', r)
          → Over ids w'
      posted (ok u) k = ends w once (run-Open deepcopy sent start refl refl) k
      posted (raise cancelled_error) k =
          raised_as (cancelled_if_running w) cancelled_error (cancelled-Over ids w once) k
      posted (raise e) k = raised_as (fails_with e w) e (failed-Over e ids w runs_known once) k
