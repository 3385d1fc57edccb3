-- ===== src/Event/Handler/Notify.antt =====
-- `notify_cancelled` of source/apixis/core/event/base.py: the cleanup that the event loop asks for.
use apixis.Base.{none, some}
use apixis.Event.Handler.{ApixEvent, ApixEventHandler}

-- A failure of the cleanup, its cancellation included, is only logged.
unfoldable pub notify_cancelled : ApixEventHandler → ApixEvent → ApixEvent
notify_cancelled h e = elim h.on_cancelled [ none ↦ e | some f ↦ (f e).0 ]
