-- ===== src/Graph/Context/Life.antt =====
-- The life of a `GraphContext` (source/apixis/core/graph/context/graph_context.py) under any
-- sequence of its operations, and of the caller's cancellation of the future it waits for.
pub mod Steps
pub mod Ends
use apixis.Base.{
  ℕ, String, Bool, true, false, not, ◌&&◌, List, [], ◌∷◌, Option, none, some, Result, Error,
  if_cases, is_some, ◌≡◌, refl, arith, ap, subst, sym, ◌⊎◌, inl, inr, ◌∙◌,
}
use apixis.Graph.State.{State}
use apixis.Graph.Commands.{Target}
use apixis.Graph.Context.{
  Status, pending, running, failed, aborted, finished, Snapshot, Completion, waiting, cancelled,
  resolved, raised, GraphContext, World, is_running, is_terminal, is_done, settle, settle_any,
  transition_to, bind, set_target_node, take_a_snapshot, finish, fail, abort, cancel,
  latest_snapshot_state, same_status, is_allowed, proceed,
}

-- One operation on a context: the methods, the writes of the graph to the live state, and the
-- cancellation of the future.
pub data Operation (A R : Type 0) : Type 0 where
  binds : String → Option (R → R) → Operation A R
  targets : Target → Operation A R
  snapshots : ℕ → Operation A R
  commits : State A → ℕ → Operation A R
  finishes aborts cancels stops_waiting : Operation A R
  fails : Error → Operation A R

-- What the end of a run depends on: the status, the future, the callback and what it works on.
abbrev pub View : Type 0 → Type 0 → Type 0
View A R = Status × Option (Completion A) × Option (R → R) × R

abbrev pub view : {A R : Type 0} → World A R → View A R
view (c, r) = (c.status, c.completion, c.on_terminal, r)

abbrev pub call : {R : Type 0} → Option (R → R) → R → R
call none r = r
call (some f) r = f r

-- The changes of a view: a start, an end of a context that never ran, the end of a run, which calls
-- the callback once and settles the future, and the cancellation of the future.
pub data Changes {A R : Type 0} : View A R → View A R → Type 0 where
  starts :
      (f : Option (R → R)) (r : R) → Changes (pending, none, none, r) (running, some waiting, f, r)
  gives_up :
      (s : Status) (r : R)
      → is_terminal s ≡ true
      → Changes (pending, none, none, r) (s, none, none, r)
  ends :
      (s : Status) (o c : Completion A) (f : Option (R → R)) (r : R)
      → is_terminal s ≡ true
      → is_done o ≡ true
      → Changes (running, some c, f, r) (s, some (settle o c), none, call f r)
  stops :
      (c : Completion A) (f : Option (R → R)) (r : R)
      → Changes (running, some c, f, r) (running, some (settle cancelled c), f, r)

abbrev pub settled : {A : Type 0} → Option (Completion A) → Bool
settled none = true
settled (some c) = is_done c

-- A pending context has no future and no callback, a running one has its future, and an ended one
-- has called its callback and has a future that is done, if it has one.
abbrev pub Live : {A R : Type 0} → View A R → Type 0
Live (pending, c, f, r) = (c ≡ none) × (f ≡ none)
Live (running, c, f, r) = is_some c ≡ true
Live (s, c, f, r) = (settled c ≡ true) × (f ≡ none)

module _ {A R : Type 0} where
  abbrev pub commit : State A → ℕ → World A R → World A R
  commit s n (c, r) = (record c { state = s; steps = n }, r)

  abbrev pub stop_waiting : World A R → World A R
  stop_waiting (c, r) = (record c { completion = settle_any cancelled c.completion }, r)

  unfoldable pub perform : (A → A) → Operation A R → World A R → World A R
  unfolding bind set_target_node take_a_snapshot finish fail abort cancel
  perform deepcopy (binds run_id f) w = (bind run_id f w).0
  perform deepcopy (targets t) w = set_target_node t w
  perform deepcopy (snapshots now) w = (take_a_snapshot deepcopy now w).0
  perform deepcopy (commits s n) w = commit s n w
  perform deepcopy finishes w = (finish w).0
  perform deepcopy aborts w = (abort w).0
  perform deepcopy cancels w = (cancel w).0
  perform deepcopy stops_waiting w = stop_waiting w
  perform deepcopy (fails e) w = (fail e w).0

  unfoldable pub run : (A → A) → List (Operation A R) → World A R → World A R
  run deepcopy [] w = w
  run deepcopy (op ∷ ops) w = run deepcopy ops (perform deepcopy op w)

  unfoldable pub Moves : View A R → View A R → Type 0
  Moves v w = (w ≡ v) ⊎ Changes v w
