-- ===== src/Event/Loop/Turns.antt =====
-- The turns of the consumer of source/apixis/core/event/event_loop.py and the account of events.
use apixis.Base.{
  ◌+◌, ◌≤◌, String, Bool, true, false, List, [], ◌∷◌, ◌++◌, Option, none, some, Result, ok, raise,
  eqb, ltb, length, append_assoc, append-nil, ◌≡◌, refl, ap, sym, ◌∙◌, subst, arith, is_some,
  if_cases,
}
use apixis.Event.Handler.{ApixEvent}
use apixis.Event.Registry.{Registry, Handler}
use apixis.Event.Permits.Steps.{System}
use apixis.Event.Pipe.{get, taken_from, task_done}
use apixis.Event.Loop.{
  EventLoop, Captured, Consumer, Position, getting, acquiring, take, dispatch, captured, launched,
  cleared, taken, when_getting, when_acquiring, launched_from, acknowledged, resolve_handlers,
  position_of, at_getting, at_acquiring,
}
use apixis.Event.Loop.Invariant.{waiting, FitsAt, Fits, Accounts, Each}

-- A consumer that waits for an event has none pending.
getting-none :
    (c : Option Consumer) (p : Option Captured) → Fits c p → position_of c ≡ some getting → p ≡ none
getting-none none p f h = cc h
getting-none (some c) p f h = go c.position f h
  where
    go : (q : Position) → FitsAt q p → some q ≡ some getting → p ≡ none
    go getting f h = f
    go acquiring f h = absurd (cc h)

acquiring-Fits : (c : Option Consumer) (p : Captured) → Fits (at_acquiring c) (some p)
acquiring-Fits none p = tt
acquiring-Fits (some c) p = refl

getting-Fits : (c : Option Consumer) → Fits (at_getting c) none
getting-Fits none = tt
getting-Fits (some c) = refl

is_some-at_acquiring : (c : Option Consumer) → is_some (at_acquiring c) ≡ is_some c
is_some-at_acquiring none = refl
is_some-at_acquiring (some c) = refl

is_some-at_getting : (c : Option Consumer) → is_some (at_getting c) ≡ is_some c
is_some-at_getting none = refl
is_some-at_getting (some c) = refl

-- The fate of an event is decided, and it is not acknowledged yet.
record Behind (l : EventLoop) : Type 0 where
  order : l.decided ++ l.channel.items ≡ l.posted
  unfinished : l.channel.unfinished ≡ 1 + length l.channel.items
  bounded : length l.channel.items ≤ l.channel.maxsize
  none_pending : l.pending ≡ none
  consistent : Fits l.consumer none
  running : l.started ≡ is_some l.consumer

acknowledged-Behind :
    (l : EventLoop)
    → Behind l
    → (acknowledged l
        ≡ record l { channel = record l.channel { unfinished = length l.channel.items } })
unfolding task_done
acknowledged-Behind l b =
    let going : eqb l.channel.unfinished 0 ≡ false = ground (arith, b.unfinished) in
    rw (acknowledged, going)
      (ap (λ n. record l { channel = record l.channel { unfinished = n } })
        (omega (arith, b.unfinished)))

acknowledged-Accounts : (l : EventLoop) → Behind l → Accounts (acknowledged l)
acknowledged-Accounts l b = subst Accounts (sym (acknowledged-Behind l b)) (record {
  order =
      ap (λ p. l.decided ++ waiting p ++ l.channel.items) b.none_pending
      ∙ ap (λ ds. ds ++ l.channel.items) (append-nil l.decided)
      ∙ b.order;
  unfinished = omega (arith, ap (λ p. length (waiting p)) b.none_pending);
  bounded = b.bounded;
  consistent = subst (Fits l.consumer) (sym b.none_pending) b.consistent;
  running = b.running;
})

headed :
    (l : EventLoop) (e : ApixEvent) (es : List ApixEvent)
    → Accounts l
    → l.pending ≡ none
    → l.channel.items ≡ e ∷ es
    → l.decided ++ e ∷ [] ++ es ≡ l.posted
headed l e es a free items =
    append_assoc l.decided (e ∷ []) es
    ∙ ap (λ is. l.decided ++ is) (sym items)
    ∙ ap (λ ds. ds ++ l.channel.items) (sym (append-nil l.decided))
    ∙ ap (λ p. l.decided ++ waiting p ++ l.channel.items) (sym free)
    ∙ a.order

-- The head of the queue is taken out.
captured-Accounts :
    (l : EventLoop) (e : ApixEvent) (es : List ApixEvent) (r : Registry)
    (res : Result (List Handler))
    → Accounts l
    → l.pending ≡ none
    → l.channel.items ≡ e ∷ es
    → Accounts
        (captured e (record l { channel = record l.channel { items = es }; registry = r }) res)
captured-Accounts l e es r (ok hs) a free items = record {
  order = headed l e es a free items;
  unfinished = omega (arith, a.unfinished, ap length items, ap (λ p. length (waiting p)) free);
  bounded = omega (arith, a.bounded, ap length items);
  consistent = acquiring-Fits l.consumer (record { event = e; handlers = hs });
  running = a.running ∙ sym (is_some-at_acquiring l.consumer);
}
captured-Accounts l e es r (raise x) a free items = acknowledged-Accounts _ (record {
  order = headed l e es a free items;
  unfinished = omega (arith, a.unfinished, ap length items, ap (λ p. length (waiting p)) free);
  bounded = omega (arith, a.bounded, ap length items);
  none_pending = free;
  consistent = subst (Fits l.consumer) free a.consistent;
  running = a.running;
})

launched-Accounts :
    (created : Bool) (l : EventLoop) (p : Captured) (names : Result (List String))
    → Accounts l
    → l.pending ≡ some p
    → Accounts (launched created p (cleared p l) names)
launched-Accounts created l p names a held = go created names
  where
    behind :
        (ds : List Captured) (os : List ApixEvent) (reg : List String) (s : System)
        → Behind (record (cleared p l) {
          dispatched = ds;
          unprepared = os;
          event_registry = reg;
          permits = s;
        })
    behind ds os reg s = record {
      order = ap (λ q. l.decided ++ waiting q ++ l.channel.items) (sym held) ∙ a.order;
      unfinished = omega (arith, a.unfinished, ap (λ p. length (waiting p)) held);
      bounded = a.bounded;
      none_pending = refl;
      consistent = getting-Fits l.consumer;
      running = a.running ∙ sym (is_some-at_getting l.consumer);
    }

    go : (c : Bool) (names : Result (List String)) → Accounts (launched c p (cleared p l) names)
    go true (ok reg) = acknowledged-Accounts _ (behind _ _ _ _)
    go false (ok reg) = acknowledged-Accounts _ (behind _ _ _ _)
    go c (raise x) = acknowledged-Accounts _ (behind _ _ _ _)

taken-Accounts :
    (l : EventLoop) (is : List ApixEvent)
    → Accounts l
    → l.pending ≡ none
    → l.channel.items ≡ is
    → Each Accounts (taken l (taken_from is l.channel))
taken-Accounts l [] a free f = tt
taken-Accounts l (e ∷ es) a free f =
    captured-Accounts l e es (resolve_handlers e l.registry).0 (resolve_handlers e l.registry).1 a
      free f

pub take-Accounts : (l : EventLoop) → Accounts l → Each Accounts (take l)
unfolding take get
take-Accounts l a = at (position_of l.consumer) refl
  where
    at : (p : Option Position) → position_of l.consumer ≡ p → Each Accounts (when_getting l p)
    at none e = tt
    at (some acquiring) e = tt
    at (some getting) e =
        taken-Accounts l l.channel.items a (getting-none l.consumer l.pending a.consistent e) refl

pub dispatch-Accounts :
    (created : Bool) (l : EventLoop) → Accounts l → Each Accounts (dispatch created l)
unfolding dispatch
dispatch-Accounts created l a = at (position_of l.consumer)
  where
    at : (p : Option Position) → Each Accounts (when_acquiring created l p)
    at none = tt
    at (some getting) = tt
    at (some acquiring) =
        if_cases (Each Accounts) (ltb 0 l.permits.semaphore.value) _ _
          (λ free. with_pending l.pending refl) (λ held. tt)
      where
        with_pending :
            (p : Option Captured) → l.pending ≡ p → Each Accounts (launched_from created l p)
        with_pending none e = tt
        with_pending (some p) e = launched-Accounts created l p _ a e
