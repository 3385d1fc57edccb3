-- ===== src/Graph/Hooks/Examples.antt =====
-- A graph with two handlers in the registry, where another graph has taken over the second name.
use apixis.Base.{ℕ, String, true, false, [], ◌∷◌, none, some, string_eq, nat_eq}
use apixis.Base.Int.{pos}
use apixis.Event.Registry.{Registry, init}
use apixis.Event.Registry.Validate.{Entry, text, items, finite}
use apixis.Event.Registry.Register.{register_handler}
use apixis.Event.Registry.Chains.{IsCoherent, init-IsCoherent}
use apixis.Event.Registry.Replace.{register_handler_lem}
use apixis.Event.Subscription.{units}
use apixis.Graph.Hooks.{Listeners, unregister_handlers}
use apixis.Graph.Hooks.Owned.{Released, unregister_handlers-Released}

abbrev listener : ℕ → String → Entry
listener id name = record {
  id = id;
  is_handler = true;
  name = name;
  core_func = true;
  callbacks = some true ∷ some true ∷ some true ∷ some true ∷ [];
  subscribe = items (text name ∷ []);
  filter_event = some (items []);
  priority = some (finite (pos (units 1)));
  between_handlers = none;
}

abbrev first : Registry
first = (register_handler init (listener 1 "dispatch") false).0

abbrev both : Registry
both = (register_handler first (listener 9 "hook") false).0

both-IsCoherent : IsCoherent both
both-IsCoherent =
    (register_handler_lem first (listener 9 "hook") false
      (register_handler_lem init (listener 1 "dispatch") false init-IsCoherent).0).0

abbrev listeners : Listeners
listeners = record { handlers = ("dispatch", 1) ∷ ("hook", 2) ∷ []; registry = both }

listeners_example : Released listeners (unregister_handlers listeners) "dispatch"
listeners_example = unregister_handlers-Released listeners "dispatch" both-IsCoherent
