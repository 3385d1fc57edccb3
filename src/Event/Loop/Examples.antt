-- ===== src/Event/Loop/Examples.antt =====
-- Two events are posted before the consumer starts.
use apixis.Base.{ℕ, String, ◌≡◌, ◌≤◌, refl, arith, false, List, [], ◌∷◌, ◌++◌, some, length}
use apixis.Event.Handler.{ApixEvent, workflow}
use apixis.Event.Registry.{init}
use apixis.Event.Registry.Chains.{IsCoherent, init-IsCoherent}
use apixis.Event.Permits.Steps
use apixis.Event.Permits.Steps.{System}
use apixis.Event.Pipe.{empty_channel, put}
use apixis.Event.Loop.{EventLoop, idle, post, start, getting, position_of}
use apixis.Event.Loop.Steps.{Step, Reach, here, next, posts, starts}
use apixis.Event.Loop.Invariant.{Accounts}
use apixis.Event.Loop.Account.{Reach-Accounts}
use apixis.Event.Loop.Faithful.{IsFaithful}
use apixis.Event.Loop.Capture.{Reach-IsFaithful}
use apixis.Event.Loop.Drain.{IsWaiting, rounds, events, rounds_lem}

abbrev event : ℕ → String → ApixEvent
event id name = record {
  event_id = id;
  event_type = workflow;
  event_name = name;
  context = 0;
  accepted = false;
  seen = [];
  error_stack = [];
}

abbrev queue : List ApixEvent
queue = event 1 "order.new" ∷ event 2 "order.paid" ∷ []

abbrev fresh_loop : EventLoop
fresh_loop = idle (empty_channel 2) init (Steps.init 4)

abbrev with_events : List ApixEvent → EventLoop
with_events es = record fresh_loop {
  channel = record { maxsize = 2; items = es; unfinished = length es };
  posted = es;
}

abbrev waiting_loop : EventLoop
waiting_loop = start 7 (with_events queue)

posts_first : Step fresh_loop (with_events (event 1 "order.new" ∷ []))
unfolding post put
posts_first = posts (event 1 "order.new") refl

posts_other : Step (with_events (event 1 "order.new" ∷ [])) (with_events queue)
unfolding post put
posts_other = posts (event 2 "order.paid") refl

reached : Reach fresh_loop waiting_loop
reached = next (next (next here posts_first) posts_other) (starts 7 refl)

accounts_example : Accounts waiting_loop
accounts_example = Reach-Accounts 2 init (Steps.init 4) reached

loop_example : IsFaithful 4 waiting_loop
loop_example = Reach-IsFaithful 4 2 init init-IsCoherent reached

waits : position_of waiting_loop.consumer ≡ some getting
unfolding start
waits = refl

waiting_loop-IsWaiting : IsWaiting waiting_loop
waiting_loop-IsWaiting = record {
  accounts = Reach-Accounts 2 init (Steps.init 4) reached;
  coherent = coherent;
  waits = waits;
}
  where
    coherent : IsCoherent waiting_loop.registry
    coherent = unfold start in init-IsCoherent

enough : length waiting_loop.channel.items ≤ waiting_loop.permits.semaphore.value
unfolding start
enough = omega arith

drain_example :
    (events (rounds (length waiting_loop.channel.items) waiting_loop).dispatched
      ≡ events waiting_loop.dispatched ++ waiting_loop.channel.items)
    × ((rounds (length waiting_loop.channel.items) waiting_loop).channel.items ≡ [])
    × IsWaiting (rounds (length waiting_loop.channel.items) waiting_loop)
drain_example = rounds_lem waiting_loop waiting_loop-IsWaiting enough
