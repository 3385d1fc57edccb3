-- ===== src/Graph/Stream.antt =====
-- `StreamChannel` of source/apixis/core/graph/context/stream_writer.py, over an unbounded
-- `asyncio.Queue`, from its documentation.
pub mod Order
mod Examples
use apixis.Base.{
  Bool, true, false, List, [], ◌∷◌, ◌++◌, Option, none, some, Result, ok, raise, runtime_error,
  if◌then◌else◌,
}

-- In the queue, `none` is the mark of the end.
pub record StreamChannel (A : Type 0) : Type 0 where
  pub queue : List (Option A)
  pub closed : Bool

-- What `__anext__` gives, where it does not wait for a chunk.
pub data Next (A : Type 0) : Type 0 where
  waits stops : Next A
  chunk : A → Next A

module _ {A : Type 0} where
  abbrev pub open_channel : StreamChannel A
  open_channel = record { queue = []; closed = false }

  -- `_send`, which the writer calls
  unfoldable pub send : A → StreamChannel A → StreamChannel A × Result (Unit {0})
  send x ch =
      if ch.closed
      then (ch, raise runtime_error)
      else (record ch { queue = ch.queue ++ some x ∷ [] }, ok tt)

  unfoldable pub close : StreamChannel A → StreamChannel A
  close ch = if ch.closed then ch else record { queue = ch.queue ++ none ∷ []; closed = true }

  abbrev pub next_from : List (Option A) → StreamChannel A → StreamChannel A × Next A
  next_from [] ch = (ch, waits)
  next_from (none ∷ xs) ch = (record ch { queue = xs }, stops)
  next_from (some x ∷ xs) ch = (record ch { queue = xs }, chunk x)

  -- `__anext__`
  unfoldable pub next : StreamChannel A → StreamChannel A × Next A
  next ch = next_from ch.queue ch
