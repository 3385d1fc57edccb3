-- ===== src/Event/Subscription.antt =====
-- source/apixis/core/event/subscription.py: `subscribe`, `unsubscribe`, and the handlers by which
-- `wait_for_event` and `await_for` wait. The global registry goes from call to call.
pub mod Points
pub mod Ranges
pub mod Await
mod Examples
use apixis.Base.{
  ℕ, ◌-◌, ◌*◌, ◌^◌, String, Bool, true, false, not, ◌&&◌, ◌||◌, ◌>>◌, reject, List, [], ◌∷◌, map,
  Option, none, some, Result, ok, raise, value_error, type_error, if◌then◌else◌,
}
use apixis.Base.Int.{ℤ, pos, negsuc, ltb_ℤ}
use apixis.Event.Registry.{Registry, Handler, Boundaries, unregister_handler}
use apixis.Event.Registry.Validate.{
  Entry, Item, text, Patterns, one_text, items, Number, finite, not_finite, not_number,
  BetweenArgument, validate,
}
use apixis.Event.Registry.Register.{register_handler, get_handler}
use apixis.Event.Waiter.{EventWaiter, new_waiter, start_timeout, close}

-- A priority in the units of the registry.
abbrev pub units : ℕ → ℕ
units n = n * 2 ^ 1074

-- The argument `priority`: an infinity, a NaN, a value of another type that compares as a number in
-- the range, or one that does not compare.
pub data PriorityArgument : Type 0 where
  number : ℤ → PriorityArgument
  infinite nan other_comparable incomparable : PriorityArgument

abbrev number_of : PriorityArgument → Number
number_of (number p) = finite p
number_of infinite = not_finite
number_of nan = not_finite
number_of other_comparable = not_number
number_of incomparable = not_number

-- The execution settings of a handler.
pub record Options : Type 0 where
  pub stop_when_error : Bool
  pub time_out : Option ℤ
  pub background : Bool

abbrev default_options : Options
default_options = record { stop_when_error = true; time_out = none; background = false }

-- What is decorated: a function, or an `ApixEventHandler` instance with its attributes.
pub record Subject : Type 0 where
  pub is_instance : Bool
  pub entry : Entry
  pub options : Options

pub record Arguments : Type 0 where
  pub event_names : List Item
  pub exist_ok : Bool
  pub priority : Option PriorityArgument
  pub between_handlers : Option BetweenArgument
  pub filter_event : Option Patterns
  pub stop_when_error : Option Bool
  pub time_out : Option ℤ
  pub background : Option Bool

abbrev is_out_of_range : ℤ → Bool
is_out_of_range p = ltb_ℤ (pos (units 9999)) p || ltb_ℤ p (negsuc (units 9999 - 1))

-- The test at the head of `subscribe`.
unfoldable pub check_range : Option PriorityArgument → Result (Unit {0})
check_range none = ok tt
check_range (some (number p)) = if is_out_of_range p then raise value_error else ok tt
check_range (some infinite) = raise value_error
check_range (some nan) = ok tt
check_range (some other_comparable) = ok tt
check_range (some incomparable) = raise type_error

-- Without a priority and boundaries it is 1.
abbrev staged_priority : Option PriorityArgument → Option BetweenArgument → Option Number
staged_priority none none = some (finite (pos (units 1)))
staged_priority none (some b) = none
staged_priority (some p) b = some (number_of p)

abbrev or_default {ℓ} : {A : Type ℓ} → Option A → A → A
or_default none a = a
or_default (some b) a = b

abbrev limit : Option ℤ → Option ℤ → Option ℤ
limit none old = old
limit (some t) old = if ltb_ℤ (pos 0) t then some t else none

abbrev with_options : Arguments → Options → Options
with_options a o = record {
  stop_when_error = or_default a.stop_when_error o.stop_when_error;
  time_out = limit a.time_out o.time_out;
  background = or_default a.background o.background;
}

abbrev given_filters : Option Patterns → Patterns
given_filters none = items []
given_filters (some ps) = ps

-- The entry that is staged for the registration; `new` is the identity of a handler that is made.
unfoldable pub staged : ℕ → Arguments → Subject → Entry
staged new a s = record s.entry {
  id = if s.is_instance then s.entry.id else new;
  is_handler = true;
  callbacks = if s.is_instance then s.entry.callbacks else [];
  subscribe = items a.event_names;
  filter_event = some (given_filters a.filter_event);
  priority = staged_priority a.priority a.between_handlers;
  between_handlers = a.between_handlers;
}

abbrev as_items : List String → Patterns
as_items ss = items (map text ss)

abbrev patterns_of : Option Handler → Entry → Entry
patterns_of none e = e
patterns_of (some h) e = record e {
  subscribe = as_items h.subscribe;
  filter_event = some (as_items h.filter_event);
}

-- The settings that the handler has before the arguments override them.
abbrev own_options : Subject → Options
own_options s = if s.is_instance then s.options else default_options

-- An instance takes over the attributes of the entry.
abbrev updated : Arguments → Entry → Registry → Subject → Subject
updated a e r s =
    if s.is_instance
    then record s {
      entry = patterns_of (get_handler r e.name) e;
      options = with_options a s.options;
    }
    else s

abbrev settled :
    Arguments → Subject → Entry → Registry × Result (Unit {0}) → Registry × Subject × Result Options
settled a s e (r, raise x) = (r, s, raise x)
settled a s e (r, ok tt) = (r, updated a e r s, ok (with_options a (own_options s)))

abbrev decorated :
    Registry → ℕ → Arguments → Subject → Result (Unit {0}) → Registry × Subject × Result Options
decorated r new a s (raise x) = (r, s, raise x)
decorated r new a s (ok tt) =
    settled a s (staged new a s) (register_handler r (staged new a s) a.exist_ok)

-- `subscribe(...)(subject)`, where a function that is made a handler must be callable; with the subject afterwards and the settings of the registered handler.
unfoldable pub subscribe : Registry → ℕ → Arguments → Subject → Registry × Subject × Result Options
unfolding check_range staged register_handler
subscribe r new a s =
    decorated r new a s
      (check_range a.priority >> reject (not s.is_instance && not s.entry.core_func) type_error)

unfoldable pub unsubscribe : Registry → String → Bool → Registry × Result (Unit {0})
unsubscribe r name missing_ok = unregister_handler r name missing_ok

pub data Point : Type 0 where
  received processed : Point

abbrev pub top : ℤ
top = pos (units 10000)

abbrev pub bottom : ℤ
bottom = negsuc (units 10000 - 1)

abbrev pub point_priority : Point → ℤ
point_priority received = top
point_priority processed = bottom

abbrev as_list : Option Patterns → Option Patterns
as_list (some (one_text s)) = some (items (text s ∷ []))
as_list o = o

-- The handler of a waiter; `hex` is its unique part.
abbrev pub wait_entry : ℕ → String → String → Point → Option Patterns → Entry
wait_entry new hex event_name point filter = record {
  id = new;
  is_handler = true;
  name = Prim.Native.String.◌++◌ "resolve_future-" hex;
  core_func = true;
  callbacks = some true ∷ some true ∷ some true ∷ some true ∷ [];
  subscribe = items (text event_name ∷ []);
  filter_event = as_list filter;
  priority = some (finite (point_priority point));
  between_handlers = none;
}

-- `_register_wait_handler`
unfoldable pub register_wait_handler :
    Registry → ℕ → String → String → Point → Option Patterns → Registry × Result (Unit {0})
unfolding register_handler
register_wait_handler r new hex event_name point filter =
    register_handler r (wait_entry new hex event_name point filter) true

abbrev entered : ℤ → Option ℤ → Registry × Result (Unit {0}) → Registry × Result EventWaiter
entered now time_out (r, raise x) = (r, raise x)
entered now time_out (r, ok tt) = (r, ok (start_timeout now time_out new_waiter))

-- The two ends of the context of `wait_for_event`.
unfoldable pub enter :
    ℤ
    → Option ℤ
    → Registry
    → ℕ
    → String
    → String
    → Point
    → Option Patterns
    → Registry × Result EventWaiter
unfolding register_wait_handler
enter now time_out r new hex event_name point filter =
    entered now time_out (register_wait_handler r new hex event_name point filter)

unfoldable pub leave : String → Registry → EventWaiter → Registry × EventWaiter
unfolding close
leave name r w = ((unregister_handler r name true).0, close w)
