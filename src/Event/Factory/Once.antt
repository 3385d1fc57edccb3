-- ===== src/Event/Factory/Once.antt =====
-- The shared event core of source/apixis/core/event/factory.py over any sequence of calls: how many
-- cores and how many startup tasks there are.
use apixis.Base.{ℕ, Bool, true, Option, none, some, is_some, nat_eq, ◌≡◌, ◌≢◌}
use apixis.Base.Dict.{Dict, get, put, del}
use apixis.Event.Loop.{EventLoop}
use apixis.Event.Factory.{
  EventCore, Factory, Part, change_core, run_start, get_component, aget_component, start_core,
}

-- A task that no core has had before.
abbrev pub IsFresh : Factory → ℕ → Type 0
IsFresh f task =
    (get task f.unfinished ≡ none)
    × ((k : ℕ) (c : EventCore) → get k f.cores ≡ some c → c.start_task ≢ some task)

-- A call of a getter or of `start_core`; a turn of a startup task, which runs or ends without, by a
-- cancellation or an exception; a core that a caller builds; and whatever the components of a core do.
pub data FactoryStep (max_len backpressure : ℕ) (f : Factory) : Factory → Type 0 where
  gets :
      (in_loop : Bool) (new task : ℕ) (part : Part) (core : Option ℕ)
      → get new f.cores ≡ none
      → IsFresh f task
      → FactoryStep max_len backpressure f
          (get_component max_len backpressure in_loop new task part core f).0
  awaits :
      (new consumer : ℕ) (part : Part) (core : Option ℕ)
      → get new f.cores ≡ none
      → FactoryStep max_len backpressure f
          (aget_component max_len backpressure new consumer part core f).0
  starts :
      (new consumer : ℕ) (core : Option ℕ)
      → get new f.cores ≡ none
      → FactoryStep max_len backpressure f (start_core max_len backpressure new consumer core f).0
  runs : (task consumer : ℕ) → FactoryStep max_len backpressure f (run_start task consumer f)
  gives_up :
      (task : ℕ)
      → FactoryStep max_len backpressure f (record f { unfinished = del task f.unfinished })
  builds :
      (k : ℕ) (c : EventCore)
      → get k f.cores ≡ none
      → c.start_task ≡ none
      → FactoryStep max_len backpressure f (record f { cores = put k c f.cores })
  works :
      (k : ℕ) (running : Bool) (l : EventLoop)
      → FactoryStep max_len backpressure f
          (change_core (λ c. record c { is_running = running; event_loop = l }) k f)

pub data FactoryReach (max_len backpressure : ℕ) (f : Factory) : Factory → Type 0 where
  here : FactoryReach max_len backpressure f f
  next :
      {g h : Factory}
      → FactoryReach max_len backpressure f g
      → FactoryStep max_len backpressure g h
      → FactoryReach max_len backpressure f h

-- The core `k` names `t` as its startup task.
abbrev pub Names : Dict ℕ EventCore → ℕ → ℕ → Type 0
Names cores t k = (c : EventCore) × (get k cores ≡ some c) × (c.start_task ≡ some t)

-- Each unfinished startup task is the one that its core names, and no other core; and the shared core
-- exists.
pub record IsOnce (f : Factory) : Type 0 where
  pub named : (t k : ℕ) → get t f.unfinished ≡ some k → Names f.cores t k
  pub owned :
      (t j k : ℕ) (c : EventCore)
      → get t f.unfinished ≡ some j
      → get k f.cores ≡ some c
      → c.start_task ≡ some t
      → j ≡ k
  pub present : (k : ℕ) → f.core ≡ some k → is_some (get k f.cores) ≡ true

-- The shared core stays what it is.
abbrev pub Keeps : Factory → Factory → Type 0
Keeps f g = (k : ℕ) → f.core ≡ some k → g.core ≡ some k

abbrev pub Steady : Factory → Factory → Type 0
Steady f g = IsOnce g × Keeps f g
