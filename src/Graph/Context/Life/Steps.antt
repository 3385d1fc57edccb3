-- ===== src/Graph/Context/Life/Steps.antt =====
-- Each operation of a `GraphContext` (source/apixis/core/graph/context/graph_context.py) makes one
-- change of its view, or none.
use apixis.Base.{
  ℕ, String, true, false, not, ◌&&◌, List, Option, none, some, Result, if_cases, is_some, ◌≡◌, refl,
  arith, ap, subst, sym, inl, inr,
}
use apixis.Graph.State.{State}
use apixis.Graph.Commands.{Target}
use apixis.Graph.Context.{
  Status, pending, running, failed, aborted, finished, Snapshot, Completion, waiting, cancelled,
  resolved, raised, GraphContext, World, is_running, is_terminal, is_done, settle, settle_any,
  transition_to, bind, set_target_node, take_a_snapshot, finish, fail, abort, cancel,
  latest_snapshot_state, same_status, is_allowed, proceed,
}
use apixis.Graph.Context.Life.{
  Operation, binds, targets, snapshots, commits, finishes, aborts, cancels, stops_waiting, fails,
  View, view, call, starts, gives_up, ends, stops, settled, Live, perform, Moves,
}

pub settle-done : {A : Type 0} (o c : Completion A) → is_done c ≡ true → settle o c ≡ c
settle-done o waiting h = cc h
settle-done o cancelled h = refl
settle-done o (resolved s) h = refl
settle-done o (raised e) h = refl

pub settle_lem : {A : Type 0} (o c : Completion A) → is_done o ≡ true → is_done (settle o c) ≡ true
settle_lem o waiting h = h
settle_lem o cancelled h = refl
settle_lem o (resolved s) h = refl
settle_lem o (raised e) h = refl

pub settle_any-settled :
    {A : Type 0} (o : Completion A) (c : Option (Completion A))
    → settled c ≡ true
    → settle_any o c ≡ c
settle_any-settled o none h = refl
settle_any-settled o (some c) h = ap some (settle-done o c h)

module _ {A R : Type 0} where
  -- An operation that ends the run in the status `s`.
  abbrev pub close : Status → (GraphContext A R → Completion A) → World A R → World A R
  close s outcome w =
      (proceed (transition_to s w)
        (λ d. record d { completion = settle_any (outcome d) d.completion })).0

  abbrev pub context :
      String
      → Option String
      → State A
      → Target
      → ℕ
      → List (Snapshot A)
      → Option (Completion A)
      → Status
      → Option (R → R)
      → GraphContext A R
  context g i st t n ss c s f = record {
    graph_id = g;
    run_id = i;
    state = st;
    target_node_name = t;
    steps = n;
    context_snapshot = ss;
    completion = c;
    status = s;
    on_terminal = f;
  }

  module _ (g : String) (i : Option String) (st : State A) (t : Target) (n : ℕ)
      (ss : List (Snapshot A)) where
    pending-Moves :
        (s : Status) (o : GraphContext A R → Completion A) (r : R)
        → is_terminal s ≡ true
        → Moves
            (pending, none, none, r)
            (view (close s o (context g i st t n ss none pending none, r)))
    unfolding transition_to Moves
    pending-Moves pending o r end = cc end
    pending-Moves running o r end = cc end
    pending-Moves failed o r end = inr (gives_up failed r refl)
    pending-Moves aborted o r end = inr (gives_up aborted r refl)
    pending-Moves finished o r end = inl refl

    running-Moves :
        (s : Status) (o : GraphContext A R → Completion A) (c : Completion A) (f : Option (R → R))
        (r : R)
        → is_terminal s ≡ true
        → ((d : GraphContext A R) → is_done (o d) ≡ true)
        → Moves
            (running, some c, f, r)
            (view (close s o (context g i st t n ss (some c) running f, r)))
    unfolding transition_to Moves
    running-Moves pending o c f r end done = cc end
    running-Moves running o c f r end done = cc end
    running-Moves failed o c none r end done = inr (ends failed (o _) c none r refl (done _))
    running-Moves failed o c (some f) r end done =
        inr (ends failed (o _) c (some f) r refl (done _))
    running-Moves aborted o c none r end done = inr (ends aborted (o _) c none r refl (done _))
    running-Moves aborted o c (some f) r end done =
        inr (ends aborted (o _) c (some f) r refl (done _))
    running-Moves finished o c none r end done = inr (ends finished (o _) c none r refl (done _))
    running-Moves finished o c (some f) r end done =
        inr (ends finished (o _) c (some f) r refl (done _))

    ended-Moves :
        (s : Status) (o : GraphContext A R → Completion A) (now : Status)
        (c : Option (Completion A)) (f : Option (R → R)) (r : R)
        → is_allowed now s ≡ false
        → settled c ≡ true
        → Moves (now, c, f, r) (view (close s o (context g i st t n ss c now f, r)))
    unfolding transition_to Moves
    ended-Moves s o now c f r stuck h =
        if_cases moves (same_status s now && is_terminal s) _ _
          (λ same. inl (ap (λ x. (now, x, f, r)) (settle_any-settled (o _) c h)))
          (λ other.
            if_cases moves (not (is_allowed now s)) _ _ (λ e. inl refl)
              (λ e. ground (arith, stuck, e)))
      where
        moves : World A R × Result (Unit {0}) → Type 0
        moves q =
            Moves (now, c, f, r)
              (view (proceed q (λ d. record d { completion = settle_any (o d) d.completion })).0)

    closed-Moves :
        (s : Status) (o : GraphContext A R → Completion A) (now : Status)
        (c : Option (Completion A)) (f : Option (R → R)) (r : R)
        → is_terminal s ≡ true
        → ((d : GraphContext A R) → is_done (o d) ≡ true)
        → Live (now, c, f, r)
        → Moves (now, c, f, r) (view (close s o (context g i st t n ss c now f, r)))
    unfolding Moves
    closed-Moves s o pending none none r end done h = pending-Moves s o r end
    closed-Moves s o pending (some c) f r end done h = cc (h.0)
    closed-Moves s o pending c (some f) r end done h = cc (h.1)
    closed-Moves s o running none f r end done h = cc h
    closed-Moves s o running (some c) f r end done h = running-Moves s o c f r end done
    closed-Moves s o failed c f r end done h = ended-Moves s o failed c f r refl h.0
    closed-Moves s o aborted c f r end done h = ended-Moves s o aborted c f r refl h.0
    closed-Moves s o finished c f r end done h = ended-Moves s o finished c f r refl h.0

  pub ended_Live :
      (s : Status) (c : Option (Completion A)) (f : Option (R → R)) (r : R)
      → is_terminal s ≡ true
      → settled c ≡ true
      → f ≡ none
      → Live (s, c, f, r)
  ended_Live pending c f r end h k = cc end
  ended_Live running c f r end h k = cc end
  ended_Live failed c f r end h k = (h, k)
  ended_Live aborted c f r end h k = (h, k)
  ended_Live finished c f r end h k = (h, k)

  pub Live-Moves : (v w : View A R) → Moves v w → Live v → Live w
  unfolding Moves
  Live-Moves v w (inl e) h = subst Live (sym e) h
  Live-Moves v w (inr (starts f r)) h = refl
  Live-Moves v w (inr (gives_up s r end)) h = ended_Live s none none r end refl refl
  Live-Moves v w (inr (ends s o c f r end done)) h =
      ended_Live s (some (settle o c)) none (call f r) end (settle_lem o c done) refl
  Live-Moves v w (inr (stops c f r)) h = refl

  bound :
      (g : String) (i : Option String) (j : String) (st : State A) (t : Target) (n : ℕ)
      (ss : List (Snapshot A)) (s : Status) (c : Option (Completion A)) (f h : Option (R → R))
      (r : R)
      → Live (s, c, f, r)
      → Moves (s, c, f, r) (view (bind j h (context g i st t n ss c s f, r)).0)
  unfolding Moves bind transition_to
  bound g i j st t n ss pending none none h r live = inr (starts h r)
  bound g i j st t n ss pending (some c) f h r live = cc (live.0)
  bound g i j st t n ss pending c (some f) h r live = cc (live.1)
  bound g i j st t n ss running c f h r live = inl refl
  bound g i j st t n ss failed c f h r live = inl refl
  bound g i j st t n ss aborted c f h r live = inl refl
  bound g i j st t n ss finished c f h r live = inl refl

  stopped :
      (s : Status) (c : Option (Completion A)) (f : Option (R → R)) (r : R)
      → Live (s, c, f, r)
      → Moves (s, c, f, r) (s, settle_any cancelled c, f, r)
  unfolding Moves
  stopped s none f r h = inl refl
  stopped pending (some c) f r h = cc (h.0)
  stopped running (some c) f r h = inr (stops c f r)
  stopped failed (some c) f r h =
      inl (ap (λ x. (failed, some x, f, r)) (settle-done cancelled c h.0))
  stopped aborted (some c) f r h =
      inl (ap (λ x. (aborted, some x, f, r)) (settle-done cancelled c h.0))
  stopped finished (some c) f r h =
      inl (ap (λ x. (finished, some x, f, r)) (settle-done cancelled c h.0))

  pub perform-Moves :
      (deepcopy : A → A) (op : Operation A R) (w : World A R)
      → Live (view w)
      → Moves (view w) (view (perform deepcopy op w))
  unfolding perform Moves bind set_target_node take_a_snapshot finish fail abort cancel
      latest_snapshot_state transition_to
  perform-Moves deepcopy (binds i f) (c, r) h =
      bound c.graph_id c.run_id i c.state c.target_node_name c.steps c.context_snapshot c.status
        c.completion c.on_terminal f r h
  perform-Moves deepcopy (targets t) (c, r) h = inl refl
  perform-Moves deepcopy (snapshots now) (c, r) h =
      if_cases (λ (q : World A R × Result (Unit {0})). Moves (view (c, r)) (view q.0))
        (is_running c.status) _ _ (λ yes. inl refl) (λ no'. inl refl)
  perform-Moves deepcopy (commits s n) (c, r) h = inl refl
  perform-Moves deepcopy finishes (c, r) h =
      if_cases (λ (q : World A R × Result (Unit {0})). Moves (view (c, r)) (view q.0))
        (is_some c.completion) _ _
        (λ yes.
          closed-Moves c.graph_id c.run_id c.state c.target_node_name c.steps c.context_snapshot
            finished (λ d. resolved d.state) c.status c.completion c.on_terminal r refl (λ d. refl)
            h)
        (λ no'. inl refl)
  perform-Moves deepcopy aborts (c, r) h =
      closed-Moves c.graph_id c.run_id c.state c.target_node_name c.steps c.context_snapshot aborted
        (λ d. resolved (latest_snapshot_state d)) c.status c.completion c.on_terminal r refl
        (λ d. refl) h
  perform-Moves deepcopy cancels (c, r) h =
      closed-Moves c.graph_id c.run_id c.state c.target_node_name c.steps c.context_snapshot aborted
        (λ d. cancelled) c.status c.completion c.on_terminal r refl (λ d. refl) h
  perform-Moves deepcopy stops_waiting (c, r) h = stopped c.status c.completion c.on_terminal r h
  perform-Moves deepcopy (fails e) (c, r) h =
      closed-Moves c.graph_id c.run_id c.state c.target_node_name c.steps c.context_snapshot failed
        (λ d. raised e) c.status c.completion c.on_terminal r refl (λ d. refl) h
