-- ===== src/Graph/Block/Outcomes.antt =====
-- The outcome of an interruption and the first operation on its block
-- (source/apixis/core/graph/interrupter).
use apixis.Base.{
  ℕ, zero, suc, ◌&&◌, ◌||◌, not, Bool, true, false, List, [], ◌∷◌, Option, none, some, Result, ok,
  raise, Error, if◌then◌else◌, graph_node_error, cancelled_error, ◌≡◌,
}
use apixis.Graph.Context.{World, is_running, abort}
use apixis.Graph.Block.{
  BlockFuture, pending, cancelled, resolved, failed, Block, is_done, resolve_block, fail_block,
  cancel_block, accept_block, dispatch_block, on_failure, on_has_error, on_accepted, on_cancelled,
  Ending, settled, deadline_passed, task_cancelled,
}

-- What happens to a block: the calls of a hook, and the notifications of the handlers of its event.
pub data Operation (A : Type 0) : Type 0 where
  resolves : A → Operation A
  fails : Error → Operation A
  cancels accepts has_error is_accepted is_cancelled : Operation A

abbrev is_zero : ℕ → Bool
is_zero zero = true
is_zero (suc n) = false

-- The run after an interruption: aborted or as it was.
abbrev left_as : {S R : Type 0} → Bool → World S R → World S R
left_as aborts w = if aborts && is_running w.0.status then (abort w).0 else w

module _ {A : Type 0} where
  pub apply : Operation A → Block A → Block A
  unfolding resolve_block fail_block cancel_block accept_block dispatch_block on_failure
      on_has_error on_accepted on_cancelled
  apply (resolves a) b = dispatch_block (resolve_block a) b
  apply (fails e) b = on_failure e b
  apply cancels b = cancel_block b
  apply accepts b = accept_block b
  apply has_error b = on_has_error b
  apply is_accepted b = on_accepted b
  apply is_cancelled b = on_cancelled b

  pub run : List (Operation A) → Block A → Block A
  unfolding apply
  run [] b = b
  run (o ∷ os) b = run os (apply o b)

  -- What a single operation decides, if anything.
  abbrev pub decision : Operation A → BlockFuture A
  decision (resolves a) = resolved a
  decision (fails e) = failed e
  decision cancels = cancelled
  decision accepts = pending
  decision has_error = failed graph_node_error
  decision is_accepted = cancelled
  decision is_cancelled = failed cancelled_error

  abbrev pub first_decision : List (Operation A) → BlockFuture A
  first_decision [] = pending
  first_decision (accepts ∷ os) = first_decision os
  first_decision (o ∷ os) = decision o

  abbrev is_cancelled_block : BlockFuture A → Bool
  is_cancelled_block cancelled = true
  is_cancelled_block _ = false

  -- What a decided block gives.
  abbrev answer : BlockFuture A → Option (Result (Option A))
  answer pending = none
  answer (resolved a) = some (ok (some a))
  answer (failed e) = some (raise e)
  answer cancelled = some (raise cancelled_error)

  abbrev ended_with :
      {S R : Type 0}
      → World S R
      → Option (Result (Option A))
      → Option (World S R × Result (Option A))
  ended_with w none = none
  ended_with w (some r) = some (w, r)

  -- The ending of an interruption whose block is decided as given.
  abbrev pub expected :
      {S R : Type 0}
      → Ending
      → ℕ
      → BlockFuture A
      → World S R
      → Option (World S R × Result (Option A))
  expected deadline_passed n f w = some (w, ok none)
  expected task_cancelled n f w =
      some
        (left_as ((is_cancelled_block f || not (is_done f)) && is_zero n) w, raise cancelled_error)
  expected settled n f w = ended_with (left_as (is_cancelled_block f && is_zero n) w) (answer f)

  -- An interruption that has ended as expected, with its block decided.
  abbrev pub EndsAs :
      {S R : Type 0}
      → Option (World S R × Result (Option A))
      → Option (World S R × Result (Option A) × Block A)
      → Type 0
  EndsAs none o = o ≡ none
  EndsAs (some (w, r)) o = (b : Block A) × (o ≡ some (w, r, b)) × (is_done b.future ≡ true)
