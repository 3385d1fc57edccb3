-- ===== src/Graph/Block.antt =====
-- source/apixis/core/graph/interrupter: `Block`, the callbacks by which the handlers of an interruption
-- work on it, and what `interrupt` makes of its outcome.
pub mod Outcomes
mod Examples
use apixis.Base.{
  ℕ, zero, Bool, true, false, not, Option, none, some, Result, ok, raise, Error, graph_node_error,
  cancelled_error, if◌then◌else◌,
}
use apixis.Graph.Context.{World, is_running, abort}

pub data BlockFuture (A : Type 0) : Type 0 where
  pending cancelled : BlockFuture A
  resolved : A → BlockFuture A
  failed : Error → BlockFuture A

pub record Block (A : Type 0) : Type 0 where
  pub future : BlockFuture A
  pub accepted : Bool

module _ {A : Type 0} where
  abbrev pub new_block : Block A
  new_block = record { future = pending; accepted = false }

  abbrev pub is_done : BlockFuture A → Bool
  is_done pending = false
  is_done _ = true

  abbrev pub decide : BlockFuture A → Block A → Block A
  decide outcome b = if is_done b.future then b else record b { future = outcome }

  unfoldable pub resolve_block : A → Block A → Block A
  resolve_block a b = decide (resolved a) b

  -- `fail`; the runtime's cancellation comes as a `CancelledError`.
  unfoldable pub fail_block : Error → Block A → Block A
  fail_block e b = decide (failed e) b

  unfoldable pub cancel_block : Block A → Block A
  cancel_block b = decide cancelled b

  unfoldable pub accept_block : Block A → Block A
  accept_block b = record b { accepted = true }

  -- The functions of `BlockEventHandler` on the block of the event. `hook` is the user's callback.
  unfoldable pub dispatch_block : (Block A → Block A) → Block A → Block A
  dispatch_block hook b = if is_done b.future then b else hook b

  unfoldable pub on_failure : Error → Block A → Block A
  unfolding fail_block
  on_failure e b = fail_block e b

  unfoldable pub on_has_error : Block A → Block A
  unfolding fail_block
  on_has_error b = fail_block graph_node_error b

  unfoldable pub on_accepted : Block A → Block A
  unfolding cancel_block
  on_accepted b = if not (is_done b.future) then cancel_block b else b

  unfoldable pub on_cancelled : Block A → Block A
  unfolding fail_block
  on_cancelled b = fail_block cancelled_error b

-- How the waiting for a block ends: with its outcome, by the deadline of the interruption, or by a
-- cancellation of the task. The last two cancel the future of a block that is not decided; they may also
-- come when it is decided and the task has not gone on yet, and come first then.
pub data Ending : Type 0 where
  settled deadline_passed task_cancelled : Ending

module _ {S R : Type 0} where
  abbrev aborted_if_running : World S R → World S R
  aborted_if_running w = if is_running w.0.status then (abort w).0 else w

module _ {A S R : Type 0} where
  -- `except asyncio.CancelledError`: only a cancelled block aborts the run, and only where
  -- `cancelling` counts no cancellation of the task.
  abbrev pub when_cancelled : ℕ → BlockFuture A → World S R → World S R
  when_cancelled zero cancelled w = aborted_if_running w
  when_cancelled cancelling future w = w

  -- What `interrupt` returns or raises, with the context afterwards; `none` while it waits.
  abbrev pub outcome :
      Ending → ℕ → BlockFuture A → World S R → Option (World S R × Result (Option A))
  outcome deadline_passed n future w = some (w, ok none)
  outcome task_cancelled n pending w = some (when_cancelled n cancelled w, raise cancelled_error)
  outcome task_cancelled n future w = some (when_cancelled n future w, raise cancelled_error)
  outcome settled n pending w = none
  outcome settled n (resolved a) w = some (w, ok (some a))
  outcome settled n (failed e) w = some (w, raise e)
  outcome settled n cancelled w = some (when_cancelled n cancelled w, raise cancelled_error)

  abbrev pub with_block :
      Block A
      → Option (World S R × Result (Option A))
      → Option (World S R × Result (Option A) × Block A)
  with_block b none = none
  with_block b (some (w, r)) = some (w, r, b)

  -- The end of `interrupt`, which leaves no pending block.
  unfoldable pub interrupt :
      Ending → ℕ → Block A → World S R → Option (World S R × Result (Option A) × Block A)
  unfolding cancel_block abort
  interrupt ending n b w = with_block (cancel_block b) (outcome ending n b.future w)
