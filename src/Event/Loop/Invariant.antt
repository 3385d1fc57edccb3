-- ===== src/Event/Loop/Invariant.antt =====
-- The account that the event loop (source/apixis/core/event/event_loop.py) is to keep of posted events,
-- and the operations beside the consumer's turns.
use apixis.Base.{
  ℕ, ◌+◌, ◌≤◌, true, List, [], ◌∷◌, ◌++◌, Option, none, some, length, length-append, append_assoc,
  ◌≡◌, refl, ap, sym, ◌∙◌, subst, arith, is_some, if_cases,
}
use apixis.Event.Handler.{ApixEvent}
use apixis.Event.Registry.{Registry}
use apixis.Event.Permits.Steps.{System}
use apixis.Event.Pipe.{put, full, empty_channel}
use apixis.Event.Loop.{
  EventLoop, Captured, Consumer, Position, getting, acquiring, start, stop, on_consumer_done, post,
  idle, entry_position, posted_to, is_task,
}

abbrev pub waiting : Option Captured → List ApixEvent
waiting none = []
waiting (some p) = p.event ∷ []

-- A consumer waits for an event with none pending, and for a permit with one pending.
abbrev pub FitsAt : Position → Option Captured → Type 0
FitsAt getting p = p ≡ none
FitsAt acquiring p = is_some p ≡ true

abbrev pub Fits : Option Consumer → Option Captured → Type 0
Fits none p = Unit
Fits (some c) p = FitsAt c.position p

pub record Accounts (l : EventLoop) : Type 0 where
  pub order : l.decided ++ waiting l.pending ++ l.channel.items ≡ l.posted
  pub unfinished : l.channel.unfinished ≡ length (waiting l.pending) + length l.channel.items
  pub bounded : length l.channel.items ≤ l.channel.maxsize
  pub consistent : Fits l.consumer l.pending
  pub running : l.started ≡ is_some l.consumer

pub idle-Accounts : (m : ℕ) (r : Registry) (s : System) → Accounts (idle (empty_channel m) r s)
idle-Accounts m r s = record {
  order = refl;
  unfinished = omega arith;
  bounded = omega arith;
  consistent = tt;
  running = refl;
}

-- What holds of the state that a turn leaves, if it can be taken.
abbrev pub Each : (EventLoop → Type 0) → Option EventLoop → Type 0
Each P none = Unit
Each P (some u) = P u

pub each-some :
    (P : EventLoop → Type 0) (o : Option EventLoop) (u : EventLoop) → Each P o → o ≡ some u → P u
each-some P none u h e = absurd (cc e)
each-some P (some v) u h e = subst P (some_injective e) h
  where
    some_injective : some v ≡ some u → v ≡ u
    some_injective e = cc e

-- Words at the end of the order.
snoc-order :
    (ds is ps : List ApixEvent) (e : ApixEvent)
    → ds ++ is ≡ ps
    → ds ++ (is ++ e ∷ []) ≡ ps ++ e ∷ []
snoc-order ds is ps e h = sym (append_assoc ds is (e ∷ [])) ∙ ap (λ l. l ++ e ∷ []) h

pub post-Accounts : (e : ApixEvent) (l : EventLoop) → Accounts l → Each Accounts (post e l)
unfolding post put
post-Accounts e l a =
    if_cases (λ o. Each Accounts (posted_to e l o)) (full l.channel) none _ (λ f. tt)
      (λ room. record {
        order = snoc-order (l.decided ++ waiting l.pending) l.channel.items l.posted e a.order;
        unfinished = omega (arith, a.unfinished, length-append l.channel.items (e ∷ []));
        bounded = ground (arith, room, length-append l.channel.items (e ∷ []));
        consistent = a.consistent;
        running = a.running;
      })

entry-Fits :
    (task : ℕ) (p : Option Captured)
    → Fits (some (record { task = task; position = entry_position p })) p
entry-Fits task none = refl
entry-Fits task (some p) = refl

pub start-Accounts : (task : ℕ) (l : EventLoop) → Accounts l → Accounts (start task l)
unfolding start
start-Accounts task l a =
    if_cases Accounts l.started _ _ (λ old. a)
      (λ new. record {
        order = a.order;
        unfinished = a.unfinished;
        bounded = a.bounded;
        consistent = entry-Fits task l.pending;
        running = refl;
      })

pub stop-Accounts : (l : EventLoop) → Accounts l → Accounts (stop l)
unfolding stop
stop-Accounts l a = record {
  order = a.order;
  unfinished = a.unfinished;
  bounded = a.bounded;
  consistent = tt;
  running = refl;
}

pub done-Accounts : (task : ℕ) (l : EventLoop) → Accounts l → Accounts (on_consumer_done task l)
unfolding on_consumer_done
done-Accounts task l a =
    if_cases Accounts (is_task task l.consumer) _ _
      (λ current. record {
        order = a.order;
        unfinished = a.unfinished;
        bounded = a.bounded;
        consistent = tt;
        running = refl;
      })
      (λ old. a)
