-- ===== src/Event/Registry/Validate.antt =====
-- The checks at the head of `register_handler`
-- (source/apixis/core/event/handler_registry.py), over arguments of any Python type.
pub mod Sound
use apixis.Base.{
  ℕ, String, Bool, true, false, not, ◌||◌, ◌&&◌, List, [], ◌∷◌, Option, none, some, Result, ok,
  raise, reject, ◌>>=◌, ◌>>◌, value_error, type_error, handler_already_registered,
  handler_not_registered, ◌==◌, string_eq, if◌then◌else◌, any, all, map, dedup, is_some, ltb, leb,
}
use apixis.Base.Int.{ℤ, ltb_ℤ, eqb_ℤ}
use apixis.Base.Dict.{has}
use apixis.Event.Registry.{
  Boundaries, Handler, Registry, find_handler_position, get_handler_priority,
}

-- An item of a pattern list: a text, or a value of another type.
pub data Item : Type 0 where
  text : String → Item
  not_text : Item

-- `handler.subscribe`: one text, or a collection.
pub data Patterns : Type 0 where
  one_text : String → Patterns
  items : List Item → Patterns

pub data Number : Type 0 where
  finite : ℤ → Number
  not_finite not_number : Number

pub data Boundary : Type 0 where
  absent : Boundary
  named : String → Boundary
  not_named : Boundary

pub data BetweenArgument : Type 0 where
  pair : Boundary → Boundary → BetweenArgument
  not_pair : BetweenArgument

-- The argument of `register_handler`. A callback is told by whether it can be called.
pub record Entry : Type 0 where
  pub id : ℕ
  pub is_handler : Bool
  pub name : String
  pub core_func : Bool
  pub callbacks : List (Option Bool)
  pub subscribe : Patterns
  pub filter_event : Option Patterns
  pub priority : Option Number
  pub between_handlers : Option BetweenArgument

abbrev supplied : Patterns → List Item
supplied (one_text s) = text s ∷ []
supplied (items xs) = xs

abbrev is_pattern : Item → Bool
is_pattern (text s) = not (s == "")
is_pattern not_text = false

abbrev text_of : Item → String
text_of (text s) = s
text_of not_text = ""

abbrev is_nil {ℓ} : {A : Type ℓ} → List A → Bool
is_nil [] = true
is_nil (x ∷ xs) = false

unfoldable pub normalise_patterns : Patterns → Result (List String)
normalise_patterns patterns =
    let xs = supplied patterns in
    if is_nil xs
    then raise value_error
    else if any (λ x. not (is_pattern x)) xs
    then raise value_error
    else ok (dedup (map text_of xs))

-- `filter_event` is normalised only if it is true as a Python value.
unfoldable pub normalise_filters : Option Patterns → Result (List String)
normalise_filters none = ok []
normalise_filters (some (items [])) = ok []
normalise_filters (some (one_text s)) = if s == "" then ok [] else normalise_patterns (one_text s)
normalise_filters (some (items (x ∷ xs))) = normalise_patterns (items (x ∷ xs))

abbrev boundary_name : Boundary → Option String
boundary_name absent = none
boundary_name (named s) = some s
boundary_name not_named = none

abbrev is_absent : Boundary → Bool
is_absent absent = true
is_absent (named s) = false
is_absent not_named = false

abbrev is_bad_name : Boundary → Bool
is_bad_name absent = false
is_bad_name (named s) = s == ""
is_bad_name not_named = true

abbrev is_name : String → Option String → Bool
is_name s none = false
is_name s (some t) = s == t

abbrev same_name : Option String → Option String → Bool
same_name none o = false
same_name (some s) o = is_name s o

-- The position of a boundary, where there is one.
unfoldable pub boundary_position : Registry → Option String → Result (Option (ℤ × ℕ))
boundary_position r none = ok none
boundary_position r (some name) =
    elim (find_handler_position r.priority_buckets name (get_handler_priority r name)) [
      | none ↦ raise handler_not_registered
      | some p ↦ ok (some p)
    ]

abbrev reversed : ℤ × ℕ → ℤ × ℕ → Bool
reversed (lp, li) (rp, ri) = if ltb_ℤ lp rp then true else if eqb_ℤ lp rp then leb ri li else false

unfoldable pub target_priority : Option (ℤ × ℕ) → Option (ℤ × ℕ) → Result ℤ
target_priority (some l) (some r) = if reversed l r then raise value_error else ok r.0
target_priority (some l) none = ok l.0
target_priority none (some r) = ok r.0
target_priority none none = raise value_error

-- The tests that need no registry; each of them raises `ValueError`.
abbrev is_malformed : Boundary → Boundary → String → Bool
is_malformed left right name =
    (is_absent left && is_absent right)
    || (is_bad_name left || is_bad_name right)
    || same_name (boundary_name left) (boundary_name right)
    || (is_name name (boundary_name left) || is_name name (boundary_name right))

unfoldable pub locate : Registry → Option String → Option String → Result (ℤ × Boundaries)
unfolding boundary_position target_priority
locate r left right = do
  left_position ← boundary_position r left
  right_position ← boundary_position r right
  p ← target_priority left_position right_position
  ok (p, record { left = left; right = right })

unfoldable pub validate_between_handlers :
    Registry → BetweenArgument → String → Result (ℤ × Boundaries)
unfolding locate
validate_between_handlers r not_pair name = raise value_error
validate_between_handlers r (pair left right) name =
    if is_malformed left right name
    then raise value_error
    else locate r (boundary_name left) (boundary_name right)

abbrev pub check_priority : Option Number → Result ℤ
check_priority (some (finite p)) = ok p
check_priority (some not_finite) = raise value_error
check_priority _ = raise type_error

abbrev is_callable : Option Bool → Bool
is_callable none = true
is_callable (some b) = b

-- The bucket, and the metadata of the handler besides its patterns.
abbrev pub Placement : Type 0
Placement = ℤ × Option ℤ × Option Boundaries

abbrev pub placed_between : ℤ × Boundaries → Result Placement
placed_between (p, b) = ok (p, none, some b)

abbrev pub placed_by_priority : ℤ → Result Placement
placed_by_priority p = ok (p, some p, none)

unfoldable pub place : Registry → Entry → Result Placement
place r e = elim e.between_handlers [
  | some between ↦ validate_between_handlers r between e.name >>= placed_between
  | none ↦ check_priority e.priority >>= placed_by_priority
]

abbrev both_given : Option Number → Option BetweenArgument → Bool
both_given (some p) (some b) = true
both_given _ _ = false

unfoldable pub check_entry : Registry → Entry → Bool → Result (Unit {0})
check_entry r e exist_ok = do
  reject (not e.is_handler) type_error
  reject (e.name == "") value_error
  reject (has e.name r.registry && not exist_ok) handler_already_registered
  reject (not e.core_func) type_error
  reject (not (all is_callable e.callbacks)) type_error
  reject (both_given e.priority e.between_handlers) value_error

abbrev pub assembled : Entry → List String → List String → Placement → ℤ × Handler
assembled e subscriptions filters placed = (
  placed.0,
  record {
    id = e.id;
    name = e.name;
    subscribe = subscriptions;
    filter_event = filters;
    priority = placed.1;
    between_handlers = placed.2;
    register_order = 0;
  },
)

-- The bucket of a valid entry, and the handler to store.
unfoldable pub validate : Registry → Entry → Bool → Result (ℤ × Handler)
unfolding check_entry place
validate r e exist_ok = do
  check_entry r e exist_ok
  subscriptions ← normalise_patterns e.subscribe
  filters ← normalise_filters e.filter_event
  placed ← place r e
  ok (assembled e subscriptions filters placed)
