-- ===== src/Graph/Context.antt =====
-- `GraphContext` of source/apixis/core/graph/context/graph_context.py: the life of one run of a
-- graph and its checkpoints. `R` is what the callback of the end of the run works on, and the
-- operations take it beside the context. `deepcopy` copies a value of the state.
pub mod Life
use apixis.Base.{
  map, ℕ, zero, suc, String, Bool, true, false, not, ◌&&◌, ◌||◌, List, [], ◌∷◌, ◌++◌, Option, none,
  some, Result, ok, raise, Error, runtime_error, index_error, if◌then◌else◌, is_some, ◌≡◌, refl,
  arith,
}
use apixis.Base.Int.{ℤ, pos, negsuc}
use apixis.Graph.State.{State, copy_state}
use apixis.Graph.Command.{end_name}
use apixis.Graph.Commands.{Target, one, batch}

pub data Status : Type 0 where
  pending running failed aborted finished : Status

pub record Snapshot (A : Type 0) : Type 0 where
  pub timestamp : ℕ
  pub state : State A
  pub target_node_name : Target
  pub steps : ℕ
  pub graph_id : String

-- The future that the caller of a run waits for.
pub data Completion (A : Type 0) : Type 0 where
  waiting cancelled : Completion A
  resolved : State A → Completion A
  raised : Error → Completion A

pub record GraphContext (A R : Type 0) : Type 0 where
  pub graph_id : String
  pub run_id : Option String
  pub state : State A
  pub target_node_name : Target
  pub steps : ℕ
  pub context_snapshot : List (Snapshot A)
  pub completion : Option (Completion A)
  pub status : Status
  pub on_terminal : Option (R → R)

abbrev pub fresh : {A R : Type 0} → String → GraphContext A R
fresh graph_id = record {
  graph_id = graph_id;
  run_id = none;
  state = [];
  target_node_name = one end_name;
  steps = 0;
  context_snapshot = [];
  completion = none;
  status = pending;
  on_terminal = none;
}

abbrev pub is_running : Status → Bool
is_running running = true
is_running _ = false

abbrev pub is_pending : Status → Bool
is_pending pending = true
is_pending _ = false

abbrev pub is_terminal : Status → Bool
is_terminal failed = true
is_terminal aborted = true
is_terminal finished = true
is_terminal _ = false

abbrev pub same_status : Status → Status → Bool
same_status pending pending = true
same_status running running = true
same_status failed failed = true
same_status aborted aborted = true
same_status finished finished = true
same_status _ _ = false

-- `_ALLOWED_STATUS_TRANSITIONS`
abbrev pub is_allowed : Status → Status → Bool
is_allowed pending running = true
is_allowed pending failed = true
is_allowed pending aborted = true
is_allowed running failed = true
is_allowed running aborted = true
is_allowed running finished = true
is_allowed _ _ = false

abbrev pub is_done : {A : Type 0} → Completion A → Bool
is_done waiting = false
is_done _ = true

-- `future.set_result`, `set_exception` and `cancel` behind the test of `done()`
abbrev pub settle : {A : Type 0} → Completion A → Completion A → Completion A
settle outcome waiting = outcome
settle outcome c = c

abbrev pub settle_any : {A : Type 0} → Completion A → Option (Completion A) → Option (Completion A)
settle_any outcome none = none
settle_any outcome (some c) = some (settle outcome c)

-- `l[i]` for an index that may be negative.
abbrev pub nth : {X : Type 0} → ℕ → List X → Option X
nth n [] = none
nth zero (x ∷ xs) = some x
nth (suc n) (x ∷ xs) = nth n xs

abbrev pub rev : {X : Type 0} → List X → List X → List X
rev [] acc = acc
rev (x ∷ xs) acc = rev xs (x ∷ acc)

abbrev pub item : {X : Type 0} → ℤ → List X → Option X
item (pos n) xs = nth n xs
item (negsuc n) xs = nth n (rev xs [])

abbrev pub World : Type 0 → Type 0 → Type 0
World A R = GraphContext A R × R

abbrev pub copy_snapshot : {A : Type 0} → (A → A) → Snapshot A → Snapshot A
copy_snapshot deepcopy s = record s { state = copy_state deepcopy s.state [] }

abbrev pub selected : {A : Type 0} → (A → A) → Option (Snapshot A) → Result (Option (Snapshot A))
selected deepcopy none = raise index_error
selected deepcopy (some s) = ok (some (copy_snapshot deepcopy s))

abbrev pub latest : {A : Type 0} → State A → List (Snapshot A) → State A
latest s [] = s
latest s (x ∷ xs) = latest x.state xs

module _ {A R : Type 0} where
  abbrev notify : Option (R → R) → World A R → World A R
  notify none w = w
  notify (some f) (c, r) = (record c { on_terminal = none }, f r)

  unfoldable pub transition_to : Status → World A R → World A R × Result (Unit {0})
  transition_to s (c, r) =
      if same_status s c.status && is_terminal s
      then ((c, r), ok tt)
      else if not (is_allowed c.status s)
      then ((c, r), raise runtime_error)
      else (
        if is_running s
            then (record c { status = s }, r)
            else notify c.on_terminal (record c { status = s }, r),
        ok tt,
      )

  -- The rest of an operation, after a transition that may raise.
  abbrev pub proceed :
      World A R × Result (Unit {0})
      → (GraphContext A R → GraphContext A R)
      → World A R × Result (Unit {0})
  proceed ((c, r), ok tt) f = ((f c, r), ok tt)
  proceed (w, raise e) f = (w, raise e)

  unfoldable pub bind : String → Option (R → R) → World A R → World A R × Result (Unit {0})
  unfolding transition_to
  bind run_id on_terminal w =
      proceed (transition_to running w) (λ c. record c {
        run_id = some run_id;
        completion = some waiting;
        on_terminal = on_terminal;
      })

  unfoldable pub set_target_node : Target → World A R → World A R
  set_target_node t (c, r) = (record c { target_node_name = t }, r)

  unfoldable pub take_a_snapshot : (A → A) → ℕ → World A R → World A R × Result (Unit {0})
  unfolding copy_state
  take_a_snapshot deepcopy now (c, r) =
      if is_running c.status
      then (
        (
          record c {
            context_snapshot =
                c.context_snapshot
                ++ record {
                  timestamp = now;
                  state = copy_state deepcopy c.state [];
                  target_node_name = c.target_node_name;
                  steps = c.steps;
                  graph_id = c.graph_id;
                }
                  ∷ [];
          },
          r,
        ),
        ok tt,
      )
      else ((c, r), raise runtime_error)

  pub get_snapshot : (A → A) → ℤ → GraphContext A R → Result (Option (Snapshot A))
  get_snapshot deepcopy version c = elim c.context_snapshot [
    | [] ↦ ok none
    | s ∷ ss ↦ selected deepcopy (item version (s ∷ ss))
  ]

  unfoldable pub get_all_snapshots : (A → A) → GraphContext A R → List (Snapshot A)
  get_all_snapshots deepcopy c = map (copy_snapshot deepcopy) c.context_snapshot

  unfoldable pub latest_snapshot_state : GraphContext A R → State A
  latest_snapshot_state c = latest c.state c.context_snapshot

  unfoldable pub finish : World A R → World A R × Result (Unit {0})
  unfolding transition_to
  finish (c, r) =
      if is_some c.completion
      then proceed (transition_to finished (c, r))
          (λ d. record d { completion = settle_any (resolved d.state) d.completion })
      else ((c, r), raise runtime_error)

  unfoldable pub fail : Error → World A R → World A R × Result (Unit {0})
  unfolding transition_to
  fail e w =
      proceed (transition_to failed w)
        (λ d. record d { completion = settle_any (raised e) d.completion })

  unfoldable pub abort : World A R → World A R × Result (Unit {0})
  unfolding transition_to latest_snapshot_state
  abort w =
      proceed (transition_to aborted w) (λ d. record d {
        completion = settle_any (resolved (latest_snapshot_state d)) d.completion;
      })

  unfoldable pub cancel : World A R → World A R × Result (Unit {0})
  unfolding transition_to
  cancel w =
      proceed (transition_to aborted w)
        (λ d. record d { completion = settle_any cancelled d.completion })
