-- ===== src/Event/Loop/Drain.antt =====
-- The progress of the consumer (source/apixis/core/event/event_loop.py) where permits are free.
use apixis.Base.{
  ℕ, zero, suc, ◌-◌, ◌≤◌, ◌<◌, String, true, false, List, [], ◌∷◌, ◌++◌, append_assoc, append-nil,
  Option, none, some, Result, ok, ltb, eqb, length, map, ◌≡◌, refl, ap, sym, ◌∙◌, subst, arith,
  if_cases, if◌then◌else◌, ◌==◌, string_eq, is_some,
}
use apixis.Event.Handler.{ApixEvent}
use apixis.Event.Registry.{Handler}
use apixis.Event.Registry.Chains.{IsCoherent}
use apixis.Event.Permits.{acquired}
use apixis.Event.Pipe.{get, taken_from, task_done}
use apixis.Event.Loop.{
  EventLoop, Captured, Consumer, getting, acquiring, take, dispatch, captured, launched, cleared,
  is_internal, record_event, taken, when_getting, when_acquiring, launched_from, observed,
  acknowledged, resolve_handlers, position_of, at_getting, at_acquiring,
}
use apixis.Event.Loop.Invariant.{Accounts, each-some}
use apixis.Event.Loop.Turns.{take-Accounts, dispatch-Accounts}
use apixis.Event.Loop.Faithful.{resolve_handlers-IsCoherent, resolve_handlers-Captures}

abbrev then_or : EventLoop → (EventLoop → Option EventLoop) → Option EventLoop → EventLoop
then_or l f none = l
then_or l f (some m) = elim (f m) [ none ↦ m | some u ↦ u ]

-- One event taken and dispatched, if that can be done.
pub round : EventLoop → EventLoop
round l = then_or l (dispatch true) (take l)

pub rounds : ℕ → EventLoop → EventLoop
unfolding round
rounds zero l = l
rounds (suc n) l = rounds n (round l)

abbrev pub events : List Captured → List ApixEvent
events cs = map (λ c. c.event) cs

-- A consumer that waits for an event.
pub record IsWaiting (l : EventLoop) : Type 0 where
  pub accounts : Accounts l
  pub coherent : IsCoherent l.registry
  pub waits : position_of l.consumer ≡ some getting

record Advanced (l : EventLoop) (e : ApixEvent) (es : List ApixEvent) (u : EventLoop) : Type 0 where
  waiting : IsWaiting u
  dispatched : events u.dispatched ≡ events l.dispatched ++ e ∷ []
  items : u.channel.items ≡ es
  permits : u.permits.semaphore.value ≡ l.permits.semaphore.value - 1

observed_ok :
    (e : ApixEvent) (names : List String) → (ns : List String) × (observed e names ≡ ok ns)
unfolding record_event
observed_ok e names =
    if_cases (λ (r : Result (List String)). (ns : List String) × (r ≡ ok ns)) (e.event_name == "")
      (ok names) (record_event e names) (λ nameless. (names, refl))
      (λ named.
        if_cases (λ (r : Result (List String)). (ns : List String) × (r ≡ ok ns))
          (is_internal e.event_type) (ok names) _ (λ internal'. (names, refl))
          (λ external. rw (named) (_, refl)))

position-at_acquiring :
    (c : Option Consumer)
    → position_of c ≡ some getting
    → position_of (at_acquiring c) ≡ some acquiring
position-at_acquiring none h = cc h
position-at_acquiring (some c) h = refl

position-at_getting :
    (c : Option Consumer) → is_some c ≡ true → position_of (at_getting c) ≡ some getting
position-at_getting none h = cc h
position-at_getting (some c) h = refl

events-snoc :
    (cs : List Captured) (c : Captured) → events (cs ++ c ∷ []) ≡ events cs ++ c.event ∷ []
events-snoc [] c = refl
events-snoc (d ∷ cs) c = ap (λ es. d.event ∷ es) (events-snoc cs c)

module _ (l : EventLoop) (e : ApixEvent) (es : List ApixEvent) (w : IsWaiting l)
    (queued : l.channel.items ≡ e ∷ es) where
  abbrev resolution : Result (List Handler)
  resolution = (resolve_handlers e l.registry).1

  abbrev without_head : EventLoop
  without_head = record l {
    channel = record l.channel { items = es };
    registry = (resolve_handlers e l.registry).0;
  }

  take_eq : take l ≡ some (captured e without_head resolution)
  unfolding take get
  take_eq = ap (when_getting l) w.waits ∙ ap (λ is. taken l (taken_from is l.channel)) queued

  module _ (hs : List Handler) (same : resolution ≡ ok hs)
      (free : 0 < l.permits.semaphore.value) where
    abbrev pair : Captured
    pair = record { event = e; handlers = hs }

    abbrev middle : EventLoop
    middle = captured e without_head (ok hs)

    taken_eq : take l ≡ some middle
    taken_eq = take_eq ∙ ap (λ res. some (captured e without_head res)) same

    abbrev ready : List String → EventLoop
    ready ns = record (cleared pair middle) {
      event_registry = ns;
      permits = record {
        semaphore = acquired l.permits.semaphore;
        tokens = apixis.Event.Permits.fresh ∷ l.permits.tokens;
      };
      dispatched = l.dispatched ++ pair ∷ [];
    }

    dispatch_eq :
        (ns : List String)
        → observed e l.event_registry ≡ ok ns
        → dispatch true middle ≡ some (acknowledged (ready ns))
    unfolding dispatch
    dispatch_eq ns obs =
        let enough : ltb 0 l.permits.semaphore.value ≡ true = ground (arith, free) in
        ap (when_acquiring true middle) (position-at_acquiring l.consumer w.waits)
        ∙ ap (λ b. if b then launched_from true middle middle.pending else none) enough
        ∙ ap (λ r. some (launched true pair (cleared pair middle) r)) obs

    round_eq :
        (ns : List String) → observed e l.event_registry ≡ ok ns → round l ≡ acknowledged (ready ns)
    unfolding round
    round_eq ns obs =
        ap (then_or l (dispatch true)) taken_eq
        ∙ ap (λ (o : Option EventLoop). elim o as (λ x. EventLoop) [ none ↦ middle | some u ↦ u ])
            (dispatch_eq ns obs)

    middle-Accounts : Accounts middle
    middle-Accounts = each-some Accounts (take l) middle (take-Accounts l w.accounts) taken_eq

    done_eq :
        (ns : List String)
        → acknowledged (ready ns)
          ≡ record (ready ns) { channel = record middle.channel { unfinished = length es } }
    unfolding task_done
    done_eq ns =
        let going : eqb l.channel.unfinished 0 ≡ false =
          ground (arith, middle-Accounts.unfinished) in
        rw (acknowledged, going)
          (ap (λ n. record (ready ns) { channel = record middle.channel { unfinished = n } })
            (omega (arith, middle-Accounts.unfinished)))

    abbrev after : List String → EventLoop
    after ns = record (ready ns) { channel = record middle.channel { unfinished = length es } }

    after-Accounts : (ns : List String) → observed e l.event_registry ≡ ok ns → Accounts (after ns)
    after-Accounts ns obs = subst Accounts (done_eq ns) (
        each-some Accounts (dispatch true middle) (acknowledged (ready ns))
          (dispatch-Accounts true middle middle-Accounts) (dispatch_eq ns obs))

    round-Advanced :
        (ns : List String) → observed e l.event_registry ≡ ok ns → Advanced l e es (round l)
    round-Advanced ns obs = subst (Advanced l e es) (sym (round_eq ns obs ∙ done_eq ns)) (record {
      waiting = record {
        accounts = after-Accounts ns obs;
        coherent = resolve_handlers-IsCoherent e l.registry w.coherent;
        waits = position-at_getting (at_acquiring l.consumer) (some_position l.consumer w.waits);
      };
      dispatched = events-snoc l.dispatched pair;
      items = refl;
      permits = refl;
    })
      where
        some_position :
            (c : Option Consumer) → position_of c ≡ some getting → is_some (at_acquiring c) ≡ true
        some_position none h = cc h
        some_position (some c) h = refl

-- A waiting consumer with a free permit takes the head of the queue and dispatches it.
advances :
    (l : EventLoop) (e : ApixEvent) (es : List ApixEvent)
    → IsWaiting l
    → l.channel.items ≡ e ∷ es
    → 0 < l.permits.semaphore.value
    → Advanced l e es (round l)
advances l e es w queued free =
    let (hs, same, all) = resolve_handlers-Captures e l.registry w.coherent in
    let (ns, obs) = observed_ok e l.event_registry in
    round-Advanced l e es w queued hs same free ns obs

rounds_from :
    (es : List ApixEvent) (l : EventLoop)
    → IsWaiting l
    → l.channel.items ≡ es
    → length es ≤ l.permits.semaphore.value
    → (events (rounds (length es) l).dispatched ≡ events l.dispatched ++ es)
      × ((rounds (length es) l).channel.items ≡ [])
      × IsWaiting (rounds (length es) l)
unfolding rounds
rounds_from [] l w queued free = (sym (append-nil (events l.dispatched)), queued, w)
rounds_from (e ∷ es) l w queued free =
    let a = advances l e es w queued (omega (arith, free)) in
    let (done, empty, waits) =
      rounds_from es (round l) a.waiting a.items (omega (arith, a.permits, free)) in
    (
      done ∙ ap (λ ds. ds ++ es) a.dispatched ∙ append_assoc (events l.dispatched) (e ∷ []) es,
      empty,
      waits,
    )

-- A waiting consumer with as many free permits as there are events in the queue dispatches them all,
-- in the order of the queue, in as many rounds, and then waits again on an empty queue.
pub rounds_lem :
    (l : EventLoop)
    → IsWaiting l
    → length l.channel.items ≤ l.permits.semaphore.value
    → (events (rounds (length l.channel.items) l).dispatched
        ≡ events l.dispatched ++ l.channel.items)
      × ((rounds (length l.channel.items) l).channel.items ≡ [])
      × IsWaiting (rounds (length l.channel.items) l)
rounds_lem l w free = rounds_from l.channel.items l w refl free
