-- ===== src/Event/Registry/Examples.antt =====
-- Examples on a registry with two handlers of the same priority.
use apixis.Base.{
  String, true, false, [], ◌∷◌, Option, none, some, ok, raise, handler_already_registered,
  value_error, ◌==◌, string_eq, if◌then◌else◌, ◌≡◌, refl,
}
use apixis.Base.Int.{pos}
use apixis.Base.Dict.{get, put, del}
use apixis.Event.Glob.{fnmatchcase}
use apixis.Event.Registry.{
  Registry, init, insertion_index, invalidate_matching_chains, find_handler_position,
  get_handler_priority, scan_buckets, insert_desc, sort_desc, each_bucket, insert_handler,
  unregister_handler, get_handlers_chain_for_event, resolve, active_handler_names, matches_handler,
}
use apixis.Event.Registry.Validate.{
  Entry, text, Patterns, one_text, items, Number, finite, BetweenArgument, pair, absent, named,
  validate, normalise_patterns, normalise_filters, validate_between_handlers, boundary_position,
  target_priority, locate, check_entry, place,
}
use apixis.Event.Registry.Register.{register_handler, get_handlers_for_event}
use apixis.Event.Registry.Chains.{IsCoherent, init-IsCoherent}
use apixis.Event.Registry.Coherence.{
  get_handlers_chain_for_event_lem, unregister_handler-IsCoherent,
}
use apixis.Event.Registry.Replace.{forget, register_handler_lem, register_handler_atomic}
use apixis.Event.Registry.Dequeue.{Captures, get_handlers_for_event-Captures}

abbrev entry : String → Patterns → Option Number → Option BetweenArgument → Entry
entry name patterns priority between = record {
  id = 0;
  is_handler = true;
  name = name;
  core_func = true;
  callbacks = [];
  subscribe = patterns;
  filter_event = none;
  priority = priority;
  between_handlers = between;
}

abbrev audit : Entry
audit = entry "audit" (one_text "order.*") (some (finite (pos 5))) none

-- Placed in front of `audit`.
abbrev check : Entry
check =
    entry "check" (items (text "order.new" ∷ text "order.new" ∷ [])) none
      (some (pair absent (named "audit")))

abbrev one_handler : Registry
one_handler = (register_handler init audit false).0

abbrev two_handlers : Registry
two_handlers = (register_handler one_handler check false).0

abbrev new_order : String
new_order = "order.new"

one_handler-IsCoherent : IsCoherent one_handler
one_handler-IsCoherent = (register_handler_lem init audit false init-IsCoherent).0

two_handlers-IsCoherent : IsCoherent two_handlers
two_handlers-IsCoherent = (register_handler_lem one_handler check false one_handler-IsCoherent).0

chain_order : (get_handlers_chain_for_event two_handlers new_order).1 ≡ ok ("check" ∷ "audit" ∷ [])
unfolding get_handlers_chain_for_event register_handler validate normalise_patterns
    normalise_filters validate_between_handlers boundary_position target_priority locate check_entry
    place find_handler_position get_handler_priority scan_buckets get put del unregister_handler
    insertion_index invalidate_matching_chains matches_handler active_handler_names fnmatchcase
    insert_handler sort_desc insert_desc each_bucket
chain_order = refl

chain_example :
    ((get_handlers_chain_for_event two_handlers new_order).1
      ≡ (if new_order == "" then raise value_error else ok (resolve two_handlers new_order)))
    × IsCoherent (get_handlers_chain_for_event two_handlers new_order).0
chain_example = get_handlers_chain_for_event_lem two_handlers new_order two_handlers-IsCoherent

registration_example :
    IsCoherent (register_handler one_handler check false).0
    × ((register_handler one_handler check false).1 ≡ forget (validate one_handler check false))
registration_example = register_handler_lem one_handler check false one_handler-IsCoherent

refused_again : (register_handler two_handlers check false).1 ≡ raise handler_already_registered
unfolding register_handler validate normalise_patterns normalise_filters validate_between_handlers
    boundary_position target_priority locate check_entry place find_handler_position
    get_handler_priority scan_buckets get put del unregister_handler insertion_index
    invalidate_matching_chains insert_handler
refused_again = refl

atomic_example : (register_handler two_handlers check false).0 ≡ two_handlers
atomic_example =
    register_handler_atomic two_handlers check false two_handlers-IsCoherent
      handler_already_registered refused_again

unregistration_example : IsCoherent (unregister_handler two_handlers "audit" false).0
unregistration_example =
    unregister_handler-IsCoherent two_handlers "audit" false two_handlers-IsCoherent

capture_example : Captures new_order (get_handlers_for_event two_handlers new_order).1
capture_example =
    get_handlers_for_event-Captures two_handlers new_order two_handlers-IsCoherent (λ h. cc h)
