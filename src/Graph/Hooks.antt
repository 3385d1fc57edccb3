-- ===== src/Graph/Hooks.antt =====
-- The handlers that a graph registers on the event runtime (source/apixis/core/graph/node_graph.py): of
-- its dispatches, of its interruptions when no hook of a user decides them, and of the hooks that users
-- add; and their removal when it is decomposed. `interrupted_hook` is that of
-- source/apixis/core/graph/interrupter/graph_interrupter.py.
pub mod Owned
pub mod Unhandled
mod Examples
mod Interruption
use apixis.Base.{
  ℕ, String, Bool, true, false, not, ◌&&◌, List, [], ◌∷◌, Option, none, some, Result, ok, raise,
  Error, runtime_error, block_hook_not_registered, block_not_resolved, if◌then◌else◌, ◌==◌,
  string_eq, eqb, any, nat_eq,
}
use apixis.Base.Dict.{Dict, get, put}
use apixis.Event.Registry.{Registry, Handler}
use apixis.Event.Registry.Validate.{Entry, text, items, finite}
use apixis.Event.Registry.Register.{register_handler, get_handler}
use apixis.Event.Subscription.{Arguments, Options, Subject, subscribe, unsubscribe, bottom}
use apixis.Graph.Context.{GraphContext}
use apixis.Graph.Runtime.{Runtime, is_active_context}
use apixis.Graph.Block.{Block, is_done}

-- `_handlers`, each by its name and its identity, and the registry of the process.
pub record Listeners : Type 0 where
  pub handlers : Dict String ℕ
  pub registry : Registry

-- `subscribe(event_name, exist_ok=exist_ok)` without further arguments.
abbrev arguments : String → Bool → Arguments
arguments event_name exist_ok = record {
  event_names = text event_name ∷ [];
  exist_ok = exist_ok;
  priority = none;
  between_handlers = none;
  filter_event = none;
  stop_when_error = none;
  time_out = none;
  background = none;
}

-- A handler instance as it is made, under that name, with all its callbacks.
abbrev instance_of : ℕ → String → Subject
instance_of id name = record {
  is_instance = true;
  entry = record {
    id = id;
    is_handler = true;
    name = name;
    core_func = true;
    callbacks = some true ∷ some true ∷ some true ∷ some true ∷ [];
    subscribe = items [];
    filter_event = some (items []);
    priority = none;
    between_handlers = none;
  };
  options = record { stop_when_error = true; time_out = none; background = false };
}

abbrev keep_handler :
    ℕ → String → Listeners → Registry × Result (Unit {0}) → Listeners × Result (Unit {0})
keep_handler id name l (r, raise e) = (record l { registry = r }, raise e)
keep_handler id name l (r, ok u) =
    (record { handlers = put name id l.handlers; registry = r }, ok tt)

abbrev without_options : Registry × Subject × Result Options → Registry × Result (Unit {0})
without_options (r, s, raise e) = (r, raise e)
without_options (r, s, ok o) = (r, ok tt)

-- `_register_dispatch_handler`
unfoldable pub register_dispatch_handler : ℕ → String → Listeners → Listeners × Result (Unit {0})
unfolding subscribe
register_dispatch_handler id dispatch_name l = keep_handler id dispatch_name l (
    without_options
      (subscribe l.registry id (arguments dispatch_name false) (instance_of id dispatch_name)))

-- `_register_interrupted_handler`, which goes to the end of the chain.
abbrev fallback_entry : ℕ → String → String → Entry
fallback_entry id name event_name = record (instance_of id name).entry {
  subscribe = items (text event_name ∷ []);
  priority = some (finite bottom);
}

unfoldable pub register_interrupted_handler :
    ℕ → String → String → Listeners → Listeners × Result (Unit {0})
unfolding register_handler
register_interrupted_handler id name event_name l =
    keep_handler id name l (register_handler l.registry (fallback_entry id name event_name) false)

-- `interrupted_hook(namespace, exist_ok=exist_ok)(func)`, where `name` is the name of the function.
unfoldable pub interrupted_hook :
    ℕ → String → String → Bool → Registry → Registry × Result (Unit {0})
unfolding subscribe
interrupted_hook id event_name name exist_ok r =
    without_options (subscribe r id (arguments event_name exist_ok) (instance_of id name))

abbrev hooked : String → Listeners → Registry × Result (Unit {0}) → Listeners × Result (Unit {0})
hooked name l (r, raise e) = (record l { registry = r }, raise e)
hooked name l (r, ok u) = elim (get_handler r name) [
  | none ↦ (record l { registry = r }, raise runtime_error)
  | some h ↦ (record { handlers = put h.name h.id l.handlers; registry = r }, ok tt)
]

-- `add_interrupted_hook`, where `name` is the argument or the default name.
unfoldable pub add_interrupted_hook :
    Bool → ℕ → String → String → Listeners → Listeners × Result (Unit {0})
unfolding interrupted_hook
add_interrupted_hook decomposed id name event_name l =
    if decomposed
    then (l, raise runtime_error)
    else hooked name l (interrupted_hook id event_name name false l.registry)

-- `get_handler(name) is handler`
abbrev pub is_same : Option Handler → ℕ → Bool
is_same none id = false
is_same (some h) id = eqb h.id id

abbrev pub unregister_owned : Dict String ℕ → Registry → Registry
unregister_owned [] r = r
unregister_owned ((name, id) ∷ hs) r =
    unregister_owned hs (if is_same (get_handler r name) id then (unsubscribe r name true).0 else r)

-- `_unregister_handlers`
unfoldable pub unregister_handlers : Listeners → Listeners
unfolding get_handler unsubscribe
unregister_handlers l = record { handlers = []; registry = unregister_owned l.handlers l.registry }

-- The event of an interruption: its block with the run that it is from, and the handlers seen so far.
pub record BlockEvent (A : Type 0) : Type 0 where
  pub block : Block A
  pub graph_id : String
  pub run_id : Option String
  pub seen : List String

abbrev same_run : Option String → Option String → Bool
same_run none none = true
same_run (some a) (some b) = a == b
same_run _ _ = false

-- `not event.seen or event.seen == [handler_name]`
abbrev only_fallback : String → List String → Bool
only_fallback name [] = true
only_fallback name (s ∷ []) = s == name
only_fallback name (s ∷ t ∷ rest) = false

module _ {A S : Type 0} where
  abbrev runs_block : BlockEvent A → Runtime S → ℕ → Option (GraphContext S (List ℕ)) → Bool
  runs_block e rt i none = false
  runs_block e rt i (some c) = same_run c.run_id e.run_id && is_active_context rt i c

  -- `_is_active_block`
  unfoldable pub is_active_block : BlockEvent A → Runtime S → Bool
  unfolding is_active_context
  is_active_block e rt =
      (e.graph_id == rt.graph.graph_id)
      && any (λ i. runs_block e rt i (get i rt.store)) rt.graph.contexts

  -- `require_interrupted_hook`, the core of the last handler of an interruption.
  unfoldable pub require_interrupted_hook : String → BlockEvent A → Runtime S → Result (Unit {0})
  unfolding is_active_block
  require_interrupted_hook handler_name e rt =
      if not (is_active_block e rt)
      then ok tt
      else if only_fallback handler_name e.seen
      then raise block_hook_not_registered
      else if not e.block.accepted && not (is_done e.block.future)
      then raise block_not_resolved
      else ok tt

  -- `dispatch_owned_block`, the hook of `add_interrupted_hook`.
  unfoldable pub dispatch_owned_block :
      (Block A → Block A) → BlockEvent A → Runtime S → BlockEvent A
  unfolding is_active_block
  dispatch_owned_block hook e rt =
      if is_active_block e rt then record e { block = hook e.block } else e
