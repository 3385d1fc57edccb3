-- ===== src/Event/Permits.antt =====
-- The dispatch permits: `HandlerChainToken` and `suspend_process` of
-- source/apixis/core/event/base.py, and the permit that the consumer of
-- source/apixis/core/event/event_loop.py takes and a finished dispatch gives back.
-- Code between two awaits is one step. A coroutine that waits is counted in its token: `queued` at
-- the resume lock, `acquiring` inside the lock at the semaphore.
pub mod Steps
pub mod Balance
mod Examples
use apixis.Base.{
  ℕ, ◌+◌, ◌-◌, Bool, true, false, not, ◌&&◌, ◌||◌, Option, none, some, Result, ok, raise, ◌>>=◌,
  value_error, ltb, eqb, if◌then◌else◌,
}

-- `asyncio.BoundedSemaphore`
pub record Semaphore : Type 0 where
  pub bound : ℕ
  pub value : ℕ

-- A release beyond the bound is a `ValueError`.
pub release : Semaphore → Result Semaphore
release s = if ltb s.value s.bound then ok (record s { value = s.value + 1 }) else raise value_error

-- The state that a successful `acquire` leaves; it waits at 0.
abbrev pub acquired : Semaphore → Semaphore
acquired s = record s { value = s.value - 1 }

pub record HandlerChainToken : Type 0 where
  pub held : Bool
  pub closed : Bool
  pub suspended : ℕ
  pub queued : ℕ
  pub acquiring : Bool

-- The token of a dispatch that the consumer starts with a permit in hand.
abbrev pub fresh : HandlerChainToken
fresh = record { held = true; closed = false; suspended = 0; queued = 0; acquiring = false }

abbrev pub Held : Type 0
Held = Semaphore × HandlerChainToken

abbrev drop : HandlerChainToken → Semaphore → Result Held
drop t s = ok (s, record t { held = false })

-- Gives the permit back if the token holds one.
give_back : Semaphore → HandlerChainToken → Result Held
give_back s t = if t.held then (release s >>= drop t) else ok (s, t)

-- Entering `suspend_process`; behind a closed chain it does nothing.
pub suspend : Semaphore → HandlerChainToken → Result Held
unfolding give_back
suspend s t = if t.closed then ok (s, t) else give_back s (record t { suspended = t.suspended + 1 })

-- Leaving it: the last branch goes for the lock.
pub leave : HandlerChainToken → HandlerChainToken
leave t =
    if eqb (t.suspended - 1) 0
    then record t { suspended = t.suspended - 1; queued = t.queued + 1 }
    else record t { suspended = t.suspended - 1 }

-- Inside the lock: to acquire or not.
pub lock : HandlerChainToken → HandlerChainToken
lock t =
    if not t.closed && not t.held && eqb t.suspended 0
    then record t { queued = t.queued - 1; acquiring = true }
    else record t { queued = t.queued - 1 }

abbrev unlocked : HandlerChainToken → Semaphore → Result Held
unlocked t s = ok (s, record t { acquiring = false })

-- The acquisition comes through. If the chain was closed or suspended meanwhile, the permit goes
-- straight back.
pub resume : Semaphore → HandlerChainToken → Result Held
resume s t =
    if t.closed || ltb 0 t.suspended
    then (release (acquired s) >>= unlocked t)
    else ok (acquired s, record t { held = true; acquiring = false })

-- `_on_dispatch_done`, and the consumer's own cleanup of a failed preparation.
pub finish : Semaphore → HandlerChainToken → Result Held
unfolding give_back
finish s t = give_back s (record t { closed = true })
