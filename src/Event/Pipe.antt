-- ===== src/Event/Pipe.antt =====
-- source/apixis/core/event/event_pipe.py over source/apixis/core/event/pipe_channel.py. The channel
-- is an `asyncio.Queue`, of which the model keeps what its documentation says: a bounded FIFO, and
-- the number of items that were put and not yet acknowledged.
use apixis.Base.{
  ℕ, ◌+◌, ◌-◌, Bool, true, false, List, [], ◌∷◌, ◌++◌, Option, none, some, Result, ok, raise, ◌>>=◌,
  value_error, leb, eqb, length, if◌then◌else◌, ◌≡◌, ◌≤◌, arith,
}

pub record Channel (E : Type 0) : Type 0 where
  pub maxsize : ℕ
  pub items : List E
  pub unfinished : ℕ

pub record ApixEventPipe (E : Type 0) : Type 0 where
  pub channel : Channel E
  pub is_running : Bool

abbrev pub empty_channel : {E : Type 0} → ℕ → Channel E
empty_channel maxsize = record { maxsize = maxsize; items = []; unfinished = 0 }

-- `ApixEventPipe(builtin=channel)`
unfoldable pub open_pipe : {E : Type 0} → Channel E → Result (ApixEventPipe E)
open_pipe ch =
    if leb ch.maxsize 0 then raise value_error else ok (record { channel = ch; is_running = false })

module _ {E : Type 0} where
  abbrev pub full : Channel E → Bool
  full ch = leb ch.maxsize (length ch.items)

  -- `none` where `put` waits and `put_nowait` raises `QueueFull`.
  unfoldable pub put : E → Channel E → Option (Channel E)
  put e ch =
      if full ch
      then none
      else some (record ch { items = ch.items ++ e ∷ []; unfinished = ch.unfinished + 1 })

  abbrev pub taken_from : List E → Channel E → Option (E × Channel E)
  taken_from [] ch = none
  taken_from (e ∷ es) ch = some (e, record ch { items = es })

  -- `none` where `get` waits and `get_nowait` raises `QueueEmpty`.
  unfoldable pub get : Channel E → Option (E × Channel E)
  get ch = taken_from ch.items ch

  unfoldable pub task_done : Channel E → Result (Channel E)
  task_done ch =
      if eqb ch.unfinished 0
      then raise value_error
      else ok (record ch { unfinished = ch.unfinished - 1 })

  -- `join` returns
  abbrev pub joined : Channel E → Bool
  joined ch = eqb ch.unfinished 0

  -- The loop of `clear`; the first list is that of the queued items.
  clear_from : List E → ℕ → Channel E → Result (ℕ × Channel E)
  unfolding task_done
  clear_from [] count ch = ok (count, ch)
  clear_from (e ∷ es) count ch =
      task_done (record ch { items = es }) >>= λ ch'. clear_from es (count + 1) ch'

  pub clear : Channel E → Result (ℕ × Channel E)
  unfolding clear_from
  clear ch = clear_from ch.items 0 ch

  pub start_pipe : ApixEventPipe E → ApixEventPipe E
  start_pipe p = record p { is_running = true }

  pub stop_pipe : ApixEventPipe E → ApixEventPipe E
  stop_pipe p = record p { is_running = false }

  -- One step of the loop per queued item; `total` and `rest` are what it comes to.
  clear_from_lem :
      (m : ℕ) (items : List E) (count unfinished total rest : ℕ)
      → total ≡ count + length items
      → unfinished ≡ length items + rest
      → clear_from items count (record { maxsize = m; items = items; unfinished = unfinished })
        ≡ ok (total, record { maxsize = m; items = []; unfinished = rest })
  unfolding clear_from task_done
  clear_from_lem m [] count unfinished total rest t u =
      let same : count ≡ total = omega (arith, t) in
      let left : unfinished ≡ rest = omega (arith, u) in cc (same, left)
  clear_from_lem m (x ∷ xs) count unfinished total rest t u =
      let going : eqb unfinished 0 ≡ false = ground (arith, u) in
      rw (going) (
        clear_from_lem m xs (count + 1) (unfinished - 1) total rest (omega (arith, t))
          (omega (arith, u)))

  -- Where each queued item is unacknowledged, clearing the channel raises nothing, empties it,
  -- answers with the number of items that were queued and leaves the other unacknowledged ones.
  pub clear_lem :
      (ch : Channel E)
      → length ch.items ≤ ch.unfinished
      → clear ch
        ≡ ok (
          length ch.items,
          record ch { items = []; unfinished = ch.unfinished - length ch.items },
        )
  unfolding clear
  clear_lem ch h =
      clear_from_lem ch.maxsize ch.items 0 ch.unfinished (length ch.items)
        (ch.unfinished - length ch.items) (omega arith) (omega (arith, h))
