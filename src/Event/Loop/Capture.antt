-- ===== src/Event/Loop/Capture.antt =====
-- The handlers that are captured with an event, and the permits of the dispatches: the consumer on top
-- of the handler registry and of the permits.
use apixis.Base.{
  ℕ, ◌<◌, String, Bool, true, false, List, [], ◌∷◌, Option, none, some, Result, ok, raise, ltb, ◌≡◌,
  refl, sym, subst, arith, if_cases, All, string_eq,
}
use apixis.Event.Handler.{ApixEvent}
use apixis.Event.Registry.{Registry, Handler, matches_handler}
use apixis.Event.Registry.Chains.{IsCoherent}
use apixis.Event.Registry.Coherence.{unregister_handler-IsCoherent}
use apixis.Event.Registry.Replace.{register_handler_lem}
use apixis.Event.Registry.Dequeue.{Captures}
use apixis.Event.Permits.{acquired, fresh}
use apixis.Event.Permits.Steps
use apixis.Event.Permits.Steps.{System, consume, init}
use apixis.Event.Permits.Balance.{IsBalanced, Step-IsBalanced, Reach-IsBalanced}
use apixis.Event.Pipe.{Channel, put, get, taken_from, task_done, empty_channel}
use apixis.Event.Loop.{
  EventLoop, Captured, Consumer, Position, getting, acquiring, start, stop, on_consumer_done, post,
  take, dispatch, idle, captured, launched, cleared, posted_to, taken, when_getting, when_acquiring,
  launched_from, acknowledged, acknowledged_as, resolve_handlers, position_of, is_task,
}
use apixis.Event.Loop.Steps.{
  Step, posts, starts, stops, ends, takes, dispatches, moves_permit, registers, unregisters, Reach,
  here, next,
}
use apixis.Event.Loop.Invariant.{Each, each-some}
use apixis.Event.Loop.Faithful.{
  IsFor, AllFor?, IsFaithful, All-snoc, resolve_handlers-IsCoherent, resolve_handlers-Captures,
}

module _ (bound : ℕ) where
  acknowledged-IsFaithful : (l : EventLoop) → IsFaithful bound l → IsFaithful bound (acknowledged l)
  acknowledged-IsFaithful l f = go (task_done l.channel)
    where
      go : (r : Result (Channel ApixEvent)) → IsFaithful bound (acknowledged_as l r)
      go (ok ch) = record {
        coherent = f.coherent;
        pending = f.pending;
        dispatched = f.dispatched;
        resolved = f.resolved;
        balanced = f.balanced;
      }
      go (raise x) = record {
        coherent = f.coherent;
        pending = f.pending;
        dispatched = f.dispatched;
        resolved = f.resolved;
        balanced = f.balanced;
      }

  captured-IsFaithful :
      (l : EventLoop) (e : ApixEvent) (res : Result (List Handler))
      → IsFaithful bound l
      → Captures e.event_name res
      → IsFaithful bound (captured e l res)
  captured-IsFaithful l e (raise x) f (hs, same, all) = absurd (cc same)
  captured-IsFaithful l e (ok hs) f (hs', same, all) = record {
    coherent = f.coherent;
    pending = subst (All (λ h. matches_handler h e.event_name ≡ true)) (handlers_same same) all;
    dispatched = f.dispatched;
    resolved = f.resolved;
    balanced = f.balanced;
  }
    where
      handlers_same : ok hs ≡ ok hs' → hs' ≡ hs
      handlers_same h = cc h

  taken-IsFaithful :
      (l : EventLoop) (is : List ApixEvent)
      → IsFaithful bound l
      → Each (IsFaithful bound) (taken l (taken_from is l.channel))
  taken-IsFaithful l [] f = tt
  taken-IsFaithful l (e ∷ es) f =
      captured-IsFaithful _ e (resolve_handlers e l.registry).1
        (record {
          coherent = resolve_handlers-IsCoherent e l.registry f.coherent;
          pending = f.pending;
          dispatched = f.dispatched;
          resolved = f.resolved;
          balanced = f.balanced;
        })
        (resolve_handlers-Captures e l.registry f.coherent)

  take-IsFaithful : (l : EventLoop) → IsFaithful bound l → Each (IsFaithful bound) (take l)
  unfolding take get
  take-IsFaithful l f = at (position_of l.consumer)
    where
      at : (p : Option Position) → Each (IsFaithful bound) (when_getting l p)
      at none = tt
      at (some acquiring) = tt
      at (some getting) = taken-IsFaithful l l.channel.items f

  launch-IsBalanced :
      (s : System)
      → 0 < s.semaphore.value
      → IsBalanced bound s
      → IsBalanced bound (record { semaphore = acquired s.semaphore; tokens = fresh ∷ s.tokens })
  launch-IsBalanced s free b = Step-IsBalanced (consume free refl refl) b

  launched-IsFaithful :
      (created : Bool) (l : EventLoop) (p : Captured) (names : Result (List String))
      → 0 < l.permits.semaphore.value
      → l.pending ≡ some p
      → IsFaithful bound l
      → IsFaithful bound (launched created p (cleared p l) names)
  launched-IsFaithful created l p names free held f = go created names
    where
      for_event : IsFor p
      for_event = subst AllFor? held f.pending

      go : (c : Bool) (ns : Result (List String)) → IsFaithful bound (launched c p (cleared p l) ns)
      go true (ok reg) = acknowledged-IsFaithful _ (record {
        coherent = f.coherent;
        pending = tt;
        dispatched = All-snoc IsFor l.dispatched p f.dispatched for_event;
        resolved = f.resolved;
        balanced = launch-IsBalanced l.permits free f.balanced;
      })
      go false (ok reg) = acknowledged-IsFaithful _ (record {
        coherent = f.coherent;
        pending = tt;
        dispatched = f.dispatched;
        resolved = f.resolved;
        balanced = f.balanced;
      })
      go c (raise x) = acknowledged-IsFaithful _ (record {
        coherent = f.coherent;
        pending = tt;
        dispatched = f.dispatched;
        resolved = f.resolved;
        balanced = f.balanced;
      })

  dispatch-IsFaithful :
      (created : Bool) (l : EventLoop)
      → IsFaithful bound l
      → Each (IsFaithful bound) (dispatch created l)
  unfolding dispatch
  dispatch-IsFaithful created l f = at (position_of l.consumer)
    where
      at : (p : Option Position) → Each (IsFaithful bound) (when_acquiring created l p)
      at none = tt
      at (some getting) = tt
      at (some acquiring) =
          if_cases (Each (IsFaithful bound)) (ltb 0 l.permits.semaphore.value) _ _
            (λ free. with_pending (ground (arith, free)) l.pending refl) (λ held. tt)
        where
          with_pending :
              0 < l.permits.semaphore.value
              → (p : Option Captured) → l.pending ≡ p
              → Each (IsFaithful bound) (launched_from created l p)
          with_pending free none e = tt
          with_pending free (some p) e = launched-IsFaithful created l p _ free e f

  -- What else a step may change.
  other-IsFaithful :
      (l : EventLoop) (ch : Channel ApixEvent) (ps : List ApixEvent) (c : Option Consumer)
      (b : Bool)
      → IsFaithful bound l
      → IsFaithful bound (record l { channel = ch; posted = ps; consumer = c; started = b })
  other-IsFaithful l ch ps c b f = record {
    coherent = f.coherent;
    pending = f.pending;
    dispatched = f.dispatched;
    resolved = f.resolved;
    balanced = f.balanced;
  }

  post-IsFaithful :
      (e : ApixEvent) (l : EventLoop) → IsFaithful bound l → Each (IsFaithful bound) (post e l)
  unfolding post
  post-IsFaithful e l f = go (put e l.channel)
    where
      go : (o : Option (Channel ApixEvent)) → Each (IsFaithful bound) (posted_to e l o)
      go none = tt
      go (some ch) = other-IsFaithful l ch _ l.consumer l.started f

  with_registry :
      (l : EventLoop) (r : Registry)
      → IsFaithful bound l
      → IsCoherent r
      → IsFaithful bound (record l { registry = r })
  with_registry l r f c = record {
    coherent = c;
    pending = f.pending;
    dispatched = f.dispatched;
    resolved = f.resolved;
    balanced = f.balanced;
  }

  pub Step-IsFaithful : {l u : EventLoop} → Step l u → IsFaithful bound l → IsFaithful bound u
  unfolding start stop on_consumer_done
  Step-IsFaithful {l = l} {u = u} (posts e h) f = each-some _ (post e l) u (post-IsFaithful e l f) h
  Step-IsFaithful {l = l} (starts task h) f = subst (IsFaithful bound) (sym h) (
      if_cases (IsFaithful bound) l.started _ _ (λ old. f)
        (λ new. other-IsFaithful l l.channel l.posted _ true f))
  Step-IsFaithful {l = l} (stops h) f =
      subst (IsFaithful bound) (sym h) (other-IsFaithful l l.channel l.posted none false f)
  Step-IsFaithful {l = l} (ends task h) f = subst (IsFaithful bound) (sym h) (
      if_cases (IsFaithful bound) (is_task task l.consumer) _ _
        (λ current. other-IsFaithful l l.channel l.posted none false f) (λ old. f))
  Step-IsFaithful {l = l} {u = u} (takes h) f = each-some _ (take l) u (take-IsFaithful l f) h
  Step-IsFaithful {l = l} {u = u} (dispatches created h) f =
      each-some _ (dispatch created l) u (dispatch-IsFaithful created l f) h
  Step-IsFaithful {l = l} (moves_permit s st free h) f = subst (IsFaithful bound) (sym h) (record {
    coherent = f.coherent;
    pending = f.pending;
    dispatched = f.dispatched;
    resolved = f.resolved;
    balanced = Step-IsBalanced st f.balanced;
  })
  Step-IsFaithful {l = l} (registers e exist_ok h) f =
      subst (IsFaithful bound) (sym h)
        (with_registry l _ f (register_handler_lem l.registry e exist_ok f.coherent).0)
  Step-IsFaithful {l = l} (unregisters name missing_ok h) f =
      subst (IsFaithful bound) (sym h)
        (with_registry l _ f (unregister_handler-IsCoherent l.registry name missing_ok f.coherent))

-- In every state reachable from a coherent registry with all permits free: the registry is coherent,
-- every event that is pending or was dispatched has handlers that all take it, no event was dropped
-- for want of its handlers, and the free permits with those held by the dispatches make up the bound.
pub Reach-IsFaithful :
    (bound maxsize : ℕ) (r : Registry) {l : EventLoop}
    → IsCoherent r
    → Reach (idle (empty_channel maxsize) r (init bound)) l
    → IsFaithful bound l
Reach-IsFaithful bound maxsize r c here = record {
  coherent = c;
  pending = tt;
  dispatched = tt;
  resolved = refl;
  balanced = Reach-IsBalanced bound Steps.Reach.here;
}
Reach-IsFaithful bound maxsize r c (next reach step) =
    Step-IsFaithful bound step (Reach-IsFaithful bound maxsize r c reach)
