-- ===== src/Graph/Run/Bound.antt =====
-- The steps of a run of a graph against its maximum (source/apixis/core/graph/node_graph.py).
use apixis.Base.{
  ℕ, zero, suc, ◌+◌, ◌-◌, ◌≤◌, ◌<◌, String, Bool, true, false, not, List, Option, none, some,
  Result, ok, raise, Error, if◌then◌else◌, if_cases, string_eq, nat_eq, is_some, ◌≡◌, refl, ap, sym,
  ◌∙◌, subst, ◌⊎◌, inl, inr, arith,
}
use apixis.Base.Int.{pos}
use apixis.Graph.State.{State}
use apixis.Graph.Commands.{Added, Target}
use apixis.Graph.Context.{World, is_running, take_a_snapshot, finish, cancel}
use apixis.Graph.Runtime.{NodeGraph, normalise_targets, validate_target, int, as_goto, is_end}
use apixis.Graph.Runtime.Targets.{validate_target-IsRunnable}
use apixis.Graph.Command.{Command}
use apixis.Graph.Run.{
  applied, apply_groups_to, Batch, results, fails_with, is_cancelled, apply_command, active,
  finish_active, fail_active, fail_running, on_dispatch_failure, on_dispatch_cancelled,
  checkpointed, started, begin_nodes, begin_dispatch, posted, committed, end_dispatch,
}
use apixis.Graph.Run.Ends.{HasEnded, fail-HasEnded, cancel-HasEnded, finish-HasEnded}

module _ {A : Type 0} (add : A → A → Added A) (deepcopy : A → A) (g : NodeGraph) (i : ℕ) where
  -- An active context with its future, whose next target is within the budget.
  pub record IsRun (w : World A (List ℕ)) : Type 0 where
    pub is_active : active add deepcopy g i w ≡ true
    pub bound : is_some w.0.completion ≡ true
    pub within : (is_end w.0.target_node_name ≡ true) ⊎ (w.0.steps < g.max_steps)

  active-running :
      (w : World A (List ℕ)) → active add deepcopy g i w ≡ true → is_running w.0.status ≡ true
  active-running w h = ground (arith, h)

  ended-inactive : (w : World A (List ℕ)) → HasEnded w → active add deepcopy g i w ≡ false
  ended-inactive w h = ground (arith, h)

  -- The next dispatch of a run, which has been posted, or its end.
  abbrev Continues : ℕ → World A (List ℕ) × Bool → Type 0
  Continues n (w, next) = HasEnded w ⊎ ((next ≡ true) × IsRun w × (w.0.steps ≡ n))

  fail_active-HasEnded :
      (e : Error) (w : World A (List ℕ))
      → active add deepcopy g i w ≡ true
      → HasEnded (fail_active add deepcopy g i e w)
  fail_active-HasEnded e w h = rw (h) (fail-HasEnded e w.0 w.1 (active-running w h))

  fail_running-HasEnded :
      (e : Error) (w : World A (List ℕ))
      → active add deepcopy g i w ≡ true
      → HasEnded (fail_running add deepcopy g i e w)
  fail_running-HasEnded e w h =
      subst (λ b. HasEnded (if b then fail_active add deepcopy g i e w else w))
        (sym (active-running w h)) (fail_active-HasEnded e w h)

  posted-Continues :
      (w : World A (List ℕ)) (t : Result Target)
      → active add deepcopy g i w ≡ true
      → is_some w.0.completion ≡ true
      → ((u : Target) → t ≡ ok u → (is_end u ≡ true) ⊎ (w.0.steps < g.max_steps))
      → Continues w.0.steps (posted add deepcopy g i w t)
  posted-Continues w (raise e) h k fits = inl (fail_running-HasEnded e w h)
  posted-Continues w (ok u) h k fits =
      inr (refl, record { is_active = h; bound = k; within = fits u refl }, refl)

  runnable_within :
      (n : ℕ) (t : Target) (u : Target)
      → validate_target g (as_goto t) (int (pos n)) ≡ ok u
      → (is_end u ≡ true) ⊎ (n < g.max_steps)
  runnable_within n t u h =
      let (m, same, runs) = validate_target-IsRunnable g (as_goto t) (int (pos n)) u h in
      elim runs [
        | inl last ↦ inl last
        | inr fits ↦ inr (subst (λ k. k < g.max_steps) (sym (steps_injective same)) fits.0)
      ]
    where
      steps_injective : {k m : ℕ} → int (pos k) ≡ int (pos m) → k ≡ m
      steps_injective h = cc h

  committed-Continues :
      (w : World A (List ℕ)) (s : State A) (t : Result Target)
      → active add deepcopy g i w ≡ true
      → is_some w.0.completion ≡ true
      → Continues
          (w.0.steps + 1)
          (committed add deepcopy g i w.1 (applied add deepcopy g w.0 (s, t)))
  committed-Continues w s (raise e) h k =
      inl (fail_running-HasEnded e (record w.0 { state = s }, w.1) h)
  committed-Continues w s (ok t) h k =
      posted-Continues (record w.0 { state = s; steps = w.0.steps + 1 }, w.1)
        (validate_target g (as_goto t) (int (pos (w.0.steps + 1)))) h k
        (λ u. runnable_within (w.0.steps + 1) t u)

  groups-Continues :
      (w : World A (List ℕ)) (groups : Result (List (List (Command A))))
      → active add deepcopy g i w ≡ true
      → is_some w.0.completion ≡ true
      → Continues
          (w.0.steps + 1)
          (committed add deepcopy g i w.1 (apply_groups_to add deepcopy g w.0 groups))
  groups-Continues w (raise e) h k = inl (fail_running-HasEnded e w h)
  groups-Continues w (ok groups) h k = committed-Continues w _ _ h k

  end_dispatch-Continues :
      (names : List String) (b : Batch A) (w : World A (List ℕ))
      → active add deepcopy g i w ≡ true
      → is_some w.0.completion ≡ true
      → Continues (w.0.steps + 1) (end_dispatch add deepcopy g i names b w)
  unfolding end_dispatch apply_command on_dispatch_cancelled
  end_dispatch-Continues names (fails_with e) w h k = inl (fail_running-HasEnded e w h)
  end_dispatch-Continues names is_cancelled w h k = inl (
      subst (λ b. HasEnded (if b then (cancel w).0 else w)) (sym h)
        (cancel-HasEnded w.0 w.1 (active-running w h)))
  end_dispatch-Continues names (results rs) w h k =
      subst
        (λ b. Continues (w.0.steps + 1) (
          if not b
          then (w, false)
          else committed add deepcopy g i w.1 (apply_command add deepcopy g rs names w.0)))
        (sym (active-running w h)) (groups-Continues w _ h k)

  -- A dispatch before its nodes: the end of the run, or the nodes with the run within its budget.
  abbrev Begins : ℕ → World A (List ℕ) × Option (List String) → Type 0
  Begins n (w, none) = HasEnded w
  Begins n (w, some names) = IsRun w × (w.0.steps ≡ n) × (n < g.max_steps)

  started-Begins :
      (now : ℕ) (names : List String) (w : World A (List ℕ))
      → IsRun w
      → w.0.steps < g.max_steps
      → Begins w.0.steps (started add deepcopy g i names (checkpointed add deepcopy g i now w))
  unfolding take_a_snapshot
  started-Begins now names w run fits =
      if_cases (λ q. Begins w.0.steps (started add deepcopy g i names q)) g.no_snapshot (w, ok tt)
        (take_a_snapshot deepcopy now w) (λ skipped. (run, refl, fits))
        (λ taken.
          if_cases (λ q. Begins w.0.steps (started add deepcopy g i names q))
            (is_running w.0.status) _ _
            (λ running'. (
              record { is_active = run.is_active; bound = run.bound; within = run.within },
              refl,
              fits,
            ))
            (λ off. cc (off, active-running w run.is_active)))

  nodes-Begins :
      (now : ℕ) (names : Result (List String)) (w : World A (List ℕ))
      → IsRun w
      → w.0.steps < g.max_steps
      → Begins w.0.steps (begin_nodes add deepcopy g i now names w)
  unfolding on_dispatch_failure
  nodes-Begins now (raise e) w run fits = fail_active-HasEnded e w run.is_active
  nodes-Begins now (ok names) w run fits = started-Begins now names w run fits

  finish_active-HasEnded :
      (w : World A (List ℕ)) → IsRun w → HasEnded (finish_active add deepcopy g i w)
  finish_active-HasEnded w run =
      subst (λ b. HasEnded (if b then (finish w).0 else w)) (sym run.is_active)
        (finish-HasEnded w.0 w.1 (active-running w run.is_active) run.bound)

  below :
      (w : World A (List ℕ))
      → IsRun w
      → is_end w.0.target_node_name ≡ false
      → w.0.steps < g.max_steps
  below w run more = ground (arith, run.within, more)

  begin_dispatch-Begins :
      (now : ℕ) (w : World A (List ℕ))
      → IsRun w
      → Begins w.0.steps (begin_dispatch add deepcopy g i now w)
  unfolding begin_dispatch
  begin_dispatch-Begins now w run =
      if_cases (Begins w.0.steps) (not (active add deepcopy g i w)) (w, none) _
        (λ off. ground (arith, off, run.is_active))
        (λ on.
          if_cases (Begins w.0.steps) (is_end w.0.target_node_name)
            (finish_active add deepcopy g i w, none) _ (λ last. finish_active-HasEnded w run)
            (λ more.
              nodes-Begins now (normalise_targets (as_goto w.0.target_node_name)) w run
                (below w run more)))

  begin-ended :
      (now : ℕ) (w : World A (List ℕ))
      → HasEnded w
      → begin_dispatch add deepcopy g i now w ≡ (w, none)
  unfolding begin_dispatch
  begin-ended now w h =
      if_cases (λ q. q ≡ (w, none)) (not (active add deepcopy g i w)) (w, none) _ (λ off. refl)
        (λ on. ground (arith, on, ended-inactive w h))

  -- The nodes are any function of the number of steps, their names and the state; `clock` gives the time
  -- of a dispatch.
  module _ (clock : ℕ → ℕ) (nodes : ℕ → List String → State A → Batch A) where
    abbrev after_nodes : World A (List ℕ) × Option (List String) → World A (List ℕ) × Bool
    after_nodes (w, none) = (w, false)
    after_nodes (w, some names) =
        end_dispatch add deepcopy g i names (nodes w.0.steps names w.0.state) w

    -- One dispatch of the context, from its event to the next one or the end. Only a dispatch that has been
    -- posted runs.
    unfoldable pub turn : World A (List ℕ) × Bool → World A (List ℕ) × Bool
    turn (w, false) = (w, false)
    turn (w, true) = after_nodes (begin_dispatch add deepcopy g i (clock w.0.steps) w)

    unfoldable pub turns : ℕ → World A (List ℕ) × Bool → World A (List ℕ) × Bool
    turns zero q = q
    turns (suc n) q = turns n (turn q)

    -- A turn that does not end the run posts the next dispatch, and takes one of the steps that are left.
    abbrev Proceeds : ℕ → World A (List ℕ) × Bool → Type 0
    Proceeds n (w, next) =
        HasEnded w ⊎ ((next ≡ true) × IsRun w × (w.0.steps ≡ n + 1) × (n < g.max_steps))

    after_nodes-Proceeds :
        (n : ℕ) (q : World A (List ℕ) × Option (List String))
        → Begins n q
        → Proceeds n (after_nodes q)
    after_nodes-Proceeds n (w, none) h = inl h
    after_nodes-Proceeds n (w, some names) (run, same, fits) =
        elim (end_dispatch-Continues names (nodes w.0.steps names w.0.state) w run.is_active
          run.bound) [
            | inl ended ↦ inl ended
            | inr more ↦ inr (more.0, more.1, more.2 ∙ ap (λ k. k + 1) same, fits)
          ]

    turn-Proceeds : (w : World A (List ℕ)) → IsRun w → Proceeds w.0.steps (turn (w, true))
    unfolding turn
    turn-Proceeds w run =
        after_nodes-Proceeds w.0.steps _ (begin_dispatch-Begins (clock w.0.steps) w run)

    turn-ended : (q : World A (List ℕ) × Bool) → HasEnded q.0 → (turn q).0 ≡ q.0
    unfolding turn
    turn-ended (w, false) h = refl
    turn-ended (w, true) h = ap (λ p. (after_nodes p).0) (begin-ended (clock w.0.steps) w h)

    turns-ended : (n : ℕ) (q : World A (List ℕ) × Bool) → HasEnded q.0 → (turns n q).0 ≡ q.0
    unfolding turns
    turns-ended zero q h = refl
    turns-ended (suc n) q h =
        turns-ended n (turn q) (subst HasEnded (sym (turn-ended q h)) h) ∙ turn-ended q h

    turns_within :
        (n : ℕ) (w : World A (List ℕ))
        → IsRun w
        → g.max_steps ≤ w.0.steps + n
        → HasEnded (turns (suc n) (w, true)).0
    unfolding turns
    turns_within zero w run fits = elim (turn-Proceeds w run) [
      | inl ended ↦ ended
      | inr more ↦ absurd (omega (arith, fits, more.3))
    ]
    turns_within (suc n) w run fits = go (turn (w, true)) (turn-Proceeds w run) (turns_within n)
      where
        go :
            (q : World A (List ℕ) × Bool)
            → Proceeds w.0.steps q
            → ((v : World A (List ℕ))
                → IsRun v
                → g.max_steps ≤ v.0.steps + n
                → HasEnded (turns (suc n) (v, true)).0)
            → HasEnded (turns (suc n) q).0
        go (v, next) (inl ended) within =
            subst HasEnded (sym (turns-ended (suc n) (v, next) ended)) ended
        go (v, false) (inr more) within = cc (more.0)
        go (v, true) (inr more) within = within v more.1 (omega (arith, fits, more.2))

    -- A run of a graph ends, whatever its nodes return, while the graph's maximum stays as it is: an active
    -- context with its future, whose target is the end or whose steps are below the maximum, and whose
    -- dispatch has been posted, has left the status `running` after as many dispatches as there are steps
    -- left and one more; each of them but the first runs only if the one before has posted it.
    pub turns-HasEnded :
        (w : World A (List ℕ))
        → IsRun w
        → HasEnded (turns (suc (g.max_steps - w.0.steps)) (w, true)).0
    turns-HasEnded w run = turns_within (g.max_steps - w.0.steps) w run (omega arith)
