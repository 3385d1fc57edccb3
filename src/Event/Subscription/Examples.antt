-- ===== src/Event/Subscription/Examples.antt =====
-- A registry with one subscription, and a waiter beside it.
use apixis.Base.{
  String, string_eq, true, false, List, [], ◌∷◌, none, some, ok, raise, value_error, ◌≡◌, refl,
}
use apixis.Base.Int.{pos}
use apixis.Base.Dict.{get, put, del}
use apixis.Event.Registry.{
  Registry, init, insertion_index, invalidate_matching_chains, find_handler_position,
  get_handler_priority, scan_buckets, insert_handler, unregister_handler, resolve,
}
use apixis.Event.Registry.Validate.{
  Entry, text, items, validate, normalise_patterns, normalise_filters, validate_between_handlers,
  boundary_position, target_priority, locate, check_entry, place,
}
use apixis.Event.Registry.Register.{register_handler}
use apixis.Event.Waiter.{EventWaiter, new_waiter, start_timeout}
use apixis.Event.Subscription.{
  Arguments, Subject, subscribe, unsubscribe, staged, check_range, number, units, received,
  register_wait_handler, wait_entry, enter, leave,
}
use apixis.Event.Subscription.Points.{Placed, register_wait_handler-Placed, leave-enter}
use apixis.Event.Subscription.Ranges.{
  IsSound, Call, subscribes, unsubscribes, after, after_all, after_all-IsSound, subscribe_atomic,
}

abbrev function : String → Subject
function name = record {
  is_instance = false;
  entry = record {
    id = 0;
    is_handler = false;
    name = name;
    core_func = true;
    callbacks = [];
    subscribe = items [];
    filter_event = none;
    priority = none;
    between_handlers = none;
  };
  options = record { stop_when_error = true; time_out = none; background = false };
}

abbrev plain : Arguments
plain = record {
  event_names = text "order.*" ∷ [];
  exist_ok = true;
  priority = none;
  between_handlers = none;
  filter_event = none;
  stop_when_error = none;
  time_out = none;
  background = none;
}

abbrev calls : List Call
calls = subscribes 1 plain (function "audit") ∷ unsubscribes "missing" true ∷ []

abbrev one_subscription : Registry
one_subscription = after_all calls init

sound_example : IsSound one_subscription
sound_example = after_all-IsSound calls

abbrev too_high : Arguments
too_high = record plain { priority = some (number (pos (units 10000))) }

refused : (subscribe one_subscription 2 too_high (function "audit")).2 ≡ raise value_error
unfolding subscribe check_range
refused = refl

refusal_example :
    ((subscribe one_subscription 2 too_high (function "audit")).0 ≡ one_subscription)
    × ((subscribe one_subscription 2 too_high (function "audit")).1 ≡ function "audit")
refusal_example =
    subscribe_atomic one_subscription 2 too_high (function "audit") (after_all-IsSound calls)
      value_error refused

abbrev waiter_entry : Entry
waiter_entry = wait_entry 2 "f0" "order.paid" received none

new_name : get waiter_entry.name one_subscription.registry ≡ none
unfolding after_all after subscribe unsubscribe staged check_range register_handler validate
    normalise_patterns normalise_filters validate_between_handlers boundary_position target_priority
    locate check_entry place find_handler_position get_handler_priority scan_buckets get put del
    unregister_handler insertion_index invalidate_matching_chains insert_handler
new_name = refl

accepted : (register_wait_handler one_subscription 2 "f0" "order.paid" received none).1 ≡ ok tt
unfolding after_all after subscribe unsubscribe staged check_range register_handler validate
    normalise_patterns normalise_filters validate_between_handlers boundary_position target_priority
    locate check_entry place find_handler_position get_handler_priority scan_buckets get put del
    unregister_handler insertion_index invalidate_matching_chains insert_handler
    register_wait_handler
accepted = refl

waiter_order_example :
    Placed received waiter_entry.name one_subscription
      (register_wait_handler one_subscription 2 "f0" "order.paid" received none).0
waiter_order_example =
    register_wait_handler-Placed one_subscription (after_all-IsSound calls).coherent
      (after_all-IsSound calls).ranged 2 "f0" "order.paid" none received new_name accepted

registered : (register_handler one_subscription waiter_entry true).1 ≡ ok tt
unfolding register_wait_handler
registered = accepted

abbrev waiter : EventWaiter
waiter = start_timeout (pos 5) none new_waiter

opened : (enter (pos 5) none one_subscription 2 "f0" "order.paid" received none).1 ≡ ok waiter
unfolding after_all after subscribe unsubscribe staged check_range register_handler validate
    normalise_patterns normalise_filters validate_between_handlers boundary_position target_priority
    locate check_entry place find_handler_position get_handler_priority scan_buckets get put del
    unregister_handler insertion_index invalidate_matching_chains insert_handler
    register_wait_handler enter
opened = refl

entered_example :
    resolve
      (leave waiter_entry.name
        (enter (pos 5) none one_subscription 2 "f0" "order.paid" received none).0
        waiter).0
      "order.paid"
    ≡ resolve one_subscription "order.paid"
entered_example =
    leave-enter one_subscription (after_all-IsSound calls).coherent (after_all-IsSound calls).ranged
      2 "f0" "order.paid" none received (pos 5) none waiter "order.paid" new_name opened
