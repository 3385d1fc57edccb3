-- ===== src/Graph/Runtime/Managed/Follows.antt =====
-- How an operation of a context changes the set of running contexts of its graph
-- (source/apixis/core/graph/node_graph.py).
use apixis.Base.{
  ℕ, true, false, List, Option, none, some, contains, without, contains-without, nat_eq, eq_self,
  string_eq, ◌≡◌, refl, sym, ap, subst, arith, ◌⊎◌, inl, inr, ◌∙◌, if◌then◌else◌,
}
use apixis.Graph.Context.{
  Status, pending, running, failed, aborted, finished, Completion, GraphContext, World, is_running,
  is_terminal, settle, transition_to, resolved, raised, cancelled, bind, set_target_node,
  take_a_snapshot, finish, fail, abort, cancel, latest_snapshot_state,
}
use apixis.Graph.Context.Life.{
  Operation, binds, targets, snapshots, commits, finishes, aborts, cancels, stops_waiting, fails,
  View, view, Changes, starts, gives_up, ends, stops, Live, settled, perform, Moves,
}
use apixis.Graph.Context.Life.Steps.{settle_lem, ended_Live, perform-Moves, close}
use apixis.Graph.Runtime.Managed.{Attempt, Tracked, IsAfterStart}

pub without_self : (i : ℕ) (ids : List ℕ) → contains i (without i ids) ≡ false
without_self i ids =
    contains-without i i ids ∙ ap (λ b. if b then false else contains i ids) (eq_self i)

module _ {A : Type 0} where
  module _ (i : ℕ) where
    ended-Tracked :
        (s : Status) (c : Option (Completion A)) (ids : List ℕ)
        → is_terminal s ≡ true
        → settled c ≡ true
        → contains i ids ≡ false
        → Tracked i (s, c, none, ids)
    ended-Tracked s c ids e d h =
        (ended_Live s c none ids e d refl, h ∙ sym (stopped s e), λ k. cc (k, stopped s e))
      where
        stopped : (t : Status) → is_terminal t ≡ true → is_running t ≡ false
        stopped pending k = refl
        stopped running k = cc k
        stopped failed k = refl
        stopped aborted k = refl
        stopped finished k = refl

    -- A change of a tracked context that does not start it keeps it tracked, and takes at most its
    -- number out of the set.
    abbrev pub Follows : View A (List ℕ) → View A (List ℕ) → Type 0
    Follows v u = Tracked i u × ((u.3 ≡ v.3) ⊎ (u.3 ≡ without i v.3))

    Changes-Follows :
        (v u : View A (List ℕ))
        → Changes v u
        → (is_running u.0 ≡ true → is_running v.0 ≡ true)
        → Tracked i v
        → Follows v u
    Changes-Follows _ _ (starts f ids) k h = absurd (cc (k refl))
    Changes-Follows _ _ (gives_up s ids e) k h = (ended-Tracked s none ids e refl (h.1), inl refl)
    Changes-Follows _ _ (ends s o c f ids e d) k h = rw (h.2 refl) (
      ended-Tracked s (some (settle o c)) (without i ids) e (settle_lem o c d) (without_self i ids),
      inr refl,
    )
    Changes-Follows _ _ (stops c f ids) k h = ((refl, h.1, h.2), inl refl)

  -- No operation after the start makes a context run.
  close-running :
      (s : Status) (o : GraphContext A (List ℕ) → Completion A) (w : World A (List ℕ))
      → is_terminal s ≡ true
      → is_running (close s o w).0.status ≡ true
      → is_running w.0.status ≡ true
  unfolding transition_to
  close-running s o (c, r) e = ground arith

  perform-running :
      (deepcopy : A → A) (op : Operation A (List ℕ)) (w : World A (List ℕ))
      → IsAfterStart op
      → is_running (perform deepcopy op w).0.status ≡ true
      → is_running w.0.status ≡ true
  unfolding perform set_target_node take_a_snapshot finish fail abort cancel transition_to
  perform-running deepcopy (binds j f) w a k = absurd a
  perform-running deepcopy (targets t) w a k = k
  perform-running deepcopy (snapshots now) w a k = ground arith
  perform-running deepcopy (commits s n) w a k = k
  perform-running deepcopy finishes w a k =
      ground (arith, close-running finished (λ d. resolved d.state) w refl)
  perform-running deepcopy aborts w a k =
      close-running aborted (λ d. resolved (latest_snapshot_state d)) w refl k
  perform-running deepcopy cancels w a k = close-running aborted (λ d. cancelled) w refl k
  perform-running deepcopy stops_waiting w a k = k
  perform-running deepcopy (fails e) w a k = close-running failed (λ d. raised e) w refl k

  close-graph_id :
      (s : Status) (o : GraphContext A (List ℕ) → Completion A) (w : World A (List ℕ))
      → (close s o w).0.graph_id ≡ w.0.graph_id
  unfolding transition_to
  close-graph_id s o (c, r) = ground arith

  pub perform-graph_id :
      (deepcopy : A → A) (op : Operation A (List ℕ)) (w : World A (List ℕ))
      → (perform deepcopy op w).0.graph_id ≡ w.0.graph_id
  unfolding perform bind set_target_node take_a_snapshot finish fail abort cancel transition_to
  perform-graph_id deepcopy (binds j f) w = ground arith
  perform-graph_id deepcopy (targets t) w = refl
  perform-graph_id deepcopy (snapshots now) w = ground arith
  perform-graph_id deepcopy (commits s n) w = refl
  perform-graph_id deepcopy finishes w =
      ground (arith, close-graph_id finished (λ d. resolved d.state) w)
  perform-graph_id deepcopy aborts w =
      close-graph_id aborted (λ d. resolved (latest_snapshot_state d)) w
  perform-graph_id deepcopy cancels w = close-graph_id aborted (λ d. cancelled) w
  perform-graph_id deepcopy stops_waiting w = refl
  perform-graph_id deepcopy (fails e) w = close-graph_id failed (λ d. raised e) w

  pub perform-Follows :
      (i : ℕ) (deepcopy : A → A) (op : Operation A (List ℕ)) (w : World A (List ℕ))
      → IsAfterStart op
      → Tracked i (view w)
      → Follows i (view w) (view (perform deepcopy op w))
  unfolding Moves
  perform-Follows i deepcopy op w a h =
      moved _ (perform-Moves deepcopy op w h.0) (perform-running deepcopy op w a)
    where
      moved :
          (u : View A (List ℕ))
          → Moves (view w) u
          → (is_running u.0 ≡ true → is_running w.0.status ≡ true)
          → Follows i (view w) u
      moved u (inl e) k = subst (Follows i (view w)) (sym e) (h, inl refl)
      moved u (inr change) k = Changes-Follows i (view w) u change k h

  Live-set :
      (s : Status) (c : Option (Completion A)) (f : Option (List ℕ → List ℕ)) (ids ids' : List ℕ)
      → Live (s, c, f, ids)
      → Live (s, c, f, ids')
  Live-set pending c f ids ids' h = h
  Live-set running c f ids ids' h = h
  Live-set failed c f ids ids' h = h
  Live-set aborted c f ids ids' h = h
  Live-set finished c f ids ids' h = h

  -- A context is tracked in any set that agrees on it.
  pub Tracked-set :
      (i : ℕ) (c : Attempt A) (ids ids' : List ℕ)
      → contains i ids' ≡ contains i ids
      → Tracked i (view (c, ids))
      → Tracked i (view (c, ids'))
  Tracked-set i c ids ids' e h =
      (Live-set c.status c.completion c.on_terminal ids ids' h.0, e ∙ h.1, h.2)
