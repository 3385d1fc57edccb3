-- ===== src/Event/Factory.antt =====
-- source/apixis/core/event/factory.py: the event core that the process shares, and its start. Objects
-- have numbers: the cores, and the tasks that a getter creates to start one. `await` of the two
-- `start` methods does not suspend, so the lock around them is never waited for, and `start_core` is
-- one step.
pub mod Once
pub mod Writes
pub mod Reach
pub mod Starts
mod Examples
use apixis.Base.{
  ℕ, Bool, true, false, not, ◌&&◌, ◌||◌, List, [], ◌∷◌, Option, none, some, Result, ok, raise,
  Error, ◌>>=◌, is_some, nat_eq, if◌then◌else◌, ◌≡◌, ◌≢◌,
}
use apixis.Base.Dict.{Dict, get, put, del, has}
use apixis.Event.Handler.{ApixEvent}
use apixis.Event.Registry
use apixis.Event.Permits.Steps
use apixis.Event.Pipe.{ApixEventPipe, empty_channel, open_pipe}
use apixis.Event.Loop.{EventLoop, idle, start, stop, on_consumer_done}

-- The pipe's `_started` is `is_running`; its channel and the two registries are in `event_loop`.
pub record EventCore : Type 0 where
  pub is_running : Bool
  pub event_loop : EventLoop
  pub start_task : Option ℕ

-- `EventCore.started`
abbrev pub is_started : EventCore → Bool
is_started c = c.is_running && c.event_loop.started

-- `_core`, all cores, and the tasks of `_ensure_started` that are not done, each with its core.
pub record Factory : Type 0 where
  pub core : Option ℕ
  pub cores : Dict ℕ EventCore
  pub unfinished : Dict ℕ ℕ

abbrev pub imported : Factory
imported = record { core = none; cores = []; unfinished = [] }

-- The components of a core.
pub data Part : Type 0 where
  event_registry event_pipe handler_registry event_loop : Part

-- A change of the core `k`.
abbrev changed : (EventCore → EventCore) → ℕ → Factory → Option EventCore → Factory
changed change k f none = f
changed change k f (some c) = record f { cores = put k (change c) f.cores }

abbrev pub change_core : (EventCore → EventCore) → ℕ → Factory → Factory
change_core change k f = changed change k f (get k f.cores)

-- `start_core` of a core, where `consumer` is the task that its loop may create.
unfoldable pub start_components : ℕ → EventCore → EventCore
unfolding start
start_components consumer c =
    if is_started c
    then c
    else record c { is_running = true; event_loop = start consumer c.event_loop }

abbrev pub start_core_of : ℕ → ℕ → Factory → Factory
start_core_of consumer k f = change_core (start_components consumer) k f

-- `core.start_task is not None and not core.start_task.done()`
abbrev pub is_starting : Factory → Option ℕ → Bool
is_starting f none = false
is_starting f (some t) = has t f.unfinished

abbrev schedule_start : Bool → ℕ → ℕ → Factory → Option EventCore → Factory
schedule_start in_loop task k f none = f
schedule_start in_loop task k f (some c) =
    if is_started c || is_starting f c.start_task then f else if not in_loop then f else record f {
      cores = put k (record c { start_task = some task }) f.cores;
      unfinished = put task k f.unfinished;
    }

-- `_ensure_started`, inside asyncio or not, where `task` is the task that it may create.
unfoldable pub ensure_started : Bool → ℕ → ℕ → Factory → Factory
ensure_started in_loop task k f = schedule_start in_loop task k f (get k f.cores)

unfoldable pub got : Bool → ℕ → Part → Factory × Result ℕ → Factory × Result (Part × ℕ)
unfolding ensure_started
got in_loop task part (f, raise e) = (f, raise e)
got in_loop task part (f, ok k) = (ensure_started in_loop task k f, ok (part, k))

abbrev started_with : ℕ → Part → Factory × Result ℕ → Factory × Result (Part × ℕ)
started_with consumer part (f, raise e) = (f, raise e)
started_with consumer part (f, ok k) = (start_core_of consumer k f, ok (part, k))

abbrev started : ℕ → Factory × Result ℕ → Factory × Result (Unit {0})
started consumer (f, raise e) = (f, raise e)
started consumer (f, ok k) = (start_core_of consumer k f, ok tt)

-- A task of `_ensure_started` that runs.
abbrev run_task : ℕ → ℕ → Factory → Option ℕ → Factory
run_task task consumer f none = f
run_task task consumer f (some k) =
    start_core_of consumer k (record f { unfinished = del task f.unfinished })

unfoldable pub run_start : ℕ → ℕ → Factory → Factory
unfolding start_components
run_start task consumer f = run_task task consumer f (get task f.unfinished)

-- The settings `EVENT_PIPE_MAX_LEN` and `EVENT_LOOP_BACKPRESSURE`.
module _ (max_len backpressure : ℕ) where
  abbrev new_components : ApixEventPipe ApixEvent → EventCore
  new_components p = record {
    is_running = p.is_running;
    event_loop = idle p.channel Registry.init (Steps.init backpressure);
    start_task = none;
  }

  unfoldable pub new_core : Result EventCore
  unfolding open_pipe
  new_core = open_pipe (empty_channel max_len) >>= λ p. ok (new_components p)

  abbrev build_core : ℕ → Factory → Result EventCore → Factory × Result ℕ
  build_core new f (raise e) = (f, raise e)
  build_core new f (ok c) = (record f { core = some new; cores = put new c f.cores }, ok new)

  -- `_get_core`, where `new` is the number of the core that it may build.
  abbrev get_core_from : ℕ → Factory → Option ℕ → Factory × Result ℕ
  get_core_from new f (some k) = (f, ok k)
  get_core_from new f none = build_core new f new_core

  unfoldable pub get_core : ℕ → Factory → Factory × Result ℕ
  unfolding new_core
  get_core new f = get_core_from new f f.core

  -- `if core is None: core = _get_core()`
  abbrev pub choose_core : ℕ → Option ℕ → Factory → Factory × Result ℕ
  choose_core new none f = get_core new f
  choose_core new (some k) f = (f, ok k)

  -- `get_event_registry`, `get_event_pipe`, `get_handler_registry` and `get_event_loop`: a component,
  -- with the number of its core.
  unfoldable pub get_component :
      Bool → ℕ → ℕ → Part → Option ℕ → Factory → Factory × Result (Part × ℕ)
  unfolding ensure_started get_core
  get_component in_loop new task part core f = got in_loop task part (choose_core new core f)

  -- `aget_event_registry`, `aget_event_pipe`, `aget_handler_registry` and `aget_event_loop`
  unfoldable pub aget_component : ℕ → ℕ → Part → Option ℕ → Factory → Factory × Result (Part × ℕ)
  unfolding start_components get_core
  aget_component new consumer part core f = started_with consumer part (choose_core new core f)

  -- `start_core`
  unfoldable pub start_core : ℕ → ℕ → Option ℕ → Factory → Factory × Result (Unit {0})
  unfolding start_components get_core
  start_core new consumer core f = started consumer (choose_core new core f)
