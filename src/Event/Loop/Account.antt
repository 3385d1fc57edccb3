-- ===== src/Event/Loop/Account.antt =====
-- The account of posted events in every reachable state (source/apixis/core/event/event_loop.py).
use apixis.Base.{ℕ, sym, subst}
use apixis.Event.Registry.{Registry}
use apixis.Event.Permits.Steps.{System}
use apixis.Event.Pipe.{empty_channel}
use apixis.Event.Loop.{EventLoop, post, take, dispatch, idle}
use apixis.Event.Loop.Steps.{
  Step, posts, starts, stops, ends, takes, dispatches, moves_permit, registers, unregisters, Reach,
  here, next,
}
use apixis.Event.Loop.Invariant.{
  Accounts, idle-Accounts, each-some, post-Accounts, start-Accounts, stop-Accounts, done-Accounts,
}
use apixis.Event.Loop.Turns.{take-Accounts, dispatch-Accounts}

-- Other parts of the state may change.
same-Accounts :
    (l : EventLoop) (s : System) (r : Registry)
    → Accounts l
    → Accounts (record l { permits = s; registry = r })
same-Accounts l s r a = record {
  order = a.order;
  unfinished = a.unfinished;
  bounded = a.bounded;
  consistent = a.consistent;
  running = a.running;
}

pub Step-Accounts : {l u : EventLoop} → Step l u → Accounts l → Accounts u
Step-Accounts {l = l} {u = u} (posts e h) a =
    each-some Accounts (post e l) u (post-Accounts e l a) h
Step-Accounts {l = l} (starts task h) a = subst Accounts (sym h) (start-Accounts task l a)
Step-Accounts {l = l} (stops h) a = subst Accounts (sym h) (stop-Accounts l a)
Step-Accounts {l = l} (ends task h) a = subst Accounts (sym h) (done-Accounts task l a)
Step-Accounts {l = l} {u = u} (takes h) a = each-some Accounts (take l) u (take-Accounts l a) h
Step-Accounts {l = l} {u = u} (dispatches created h) a =
    each-some Accounts (dispatch created l) u (dispatch-Accounts created l a) h
Step-Accounts {l = l} (moves_permit s st free h) a =
    subst Accounts (sym h) (same-Accounts l s l.registry a)
Step-Accounts {l = l} (registers e exist_ok h) a =
    subst Accounts (sym h) (same-Accounts l l.permits _ a)
Step-Accounts {l = l} (unregisters name missing_ok h) a =
    subst Accounts (sym h) (same-Accounts l l.permits _ a)

-- In every reachable state the posted events are, in the order of posting, those whose fate the
-- consumer has decided, the pending one and those queued: none is lost, doubled or overtaken, across
-- any number of stops and starts. The unacknowledged events are the pending and the queued ones, the
-- queue is within its bound, and the loop is marked as started exactly while it has a consumer, which
-- waits for a permit exactly with an event pending.
pub Reach-Accounts :
    (maxsize : ℕ) (r : Registry) (s : System) {l : EventLoop}
    → Reach (idle (empty_channel maxsize) r s) l
    → Accounts l
Reach-Accounts maxsize r s here = idle-Accounts maxsize r s
Reach-Accounts maxsize r s (next reach step) = Step-Accounts step (Reach-Accounts maxsize r s reach)
