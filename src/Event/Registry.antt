-- ===== src/Event/Registry.antt =====
-- source/apixis/core/event/handler_registry.py: the registered handlers, their order and the cache of
-- resolved chains. A method returns the registry that it leaves, and its result or exception.
-- A finite priority is an integer in units of 2^-1074, which every finite float is a multiple of.
pub mod Validate
pub mod Register
pub mod Sort
pub mod Buckets
pub mod Positions
pub mod Chains
pub mod Coherence
pub mod Entries
pub mod Replace
pub mod Dequeue
pub mod Extremes
pub mod Append
pub mod Priorities
pub mod Undo
mod Examples
use apixis.Base.{
  ℕ, suc, ◌+◌, String, Bool, true, false, not, ◌&&◌, List, [], ◌∷◌, ◌++◌, Option, none, some,
  Result, ok, raise, value_error, handler_not_registered, ◌==◌, string_eq, if◌then◌else◌, any,
  select, contains, index_of, insert_at, remove_at, is_some,
}
use apixis.Base.Int.{ℤ, ltb_ℤ, int_eq}
use apixis.Base.Dict.{Dict, keys, get, has, put, del}
use apixis.Event.Glob.{fnmatchcase}

-- `between_handlers`, once validated.
pub record Boundaries : Type 0 where
  pub left : Option String
  pub right : Option String

-- A registered `ApixEventHandler`; `id` is the identity of the instance.
pub record Handler : Type 0 where
  pub id : ℕ
  pub name : String
  pub subscribe : List String
  pub filter_event : List String
  pub priority : Option ℤ
  pub between_handlers : Option Boundaries
  pub register_order : ℕ

pub record Registry : Type 0 where
  pub registry : Dict String Handler
  pub priority_buckets : Dict ℤ (List String)
  pub cached_chain : Dict String (Option (List String))
  pub register_order : ℕ

abbrev pub init : Registry
init = record { registry = []; priority_buckets = []; cached_chain = []; register_order = 0 }

pub matches_handler : Handler → String → Bool
matches_handler h event_name =
    any (λ p. fnmatchcase event_name p) h.subscribe
    && not (any (λ p. fnmatchcase event_name p) h.filter_event)

-- `sorted(…, reverse=True)`
pub insert_desc : ℤ → List ℤ → List ℤ
insert_desc p [] = p ∷ []
insert_desc p (q ∷ qs) = let rest = insert_desc p qs in if ltb_ℤ p q then q ∷ rest else p ∷ q ∷ qs

pub sort_desc : List ℤ → List ℤ
sort_desc [] = []
sort_desc (p ∷ ps) = insert_desc p (sort_desc ps)

abbrev pub or_empty {ℓ} : {A : Type ℓ} → Option (List A) → List A
or_empty none = []
or_empty (some xs) = xs

abbrev pub bucket_of : ℤ → Dict ℤ (List String) → List String
bucket_of p b = or_empty (get p b)

pub each_bucket : Dict ℤ (List String) → List ℤ → List String
each_bucket b [] = []
each_bucket b (p ∷ ps) = bucket_of p b ++ each_bucket b ps

pub active_handler_names : Registry → List String
active_handler_names r = each_bucket r.priority_buckets (sort_desc (keys r.priority_buckets))

abbrev pub priority_in : Option Handler → Option ℤ
priority_in none = none
priority_in (some h) = h.priority

unfoldable pub get_handler_priority : Registry → String → Option ℤ
get_handler_priority r name = priority_in (get name r.registry)

abbrev pub at_priority : ℤ → Option ℕ → Option (ℤ × ℕ)
at_priority p none = none
at_priority p (some i) = some (p, i)

abbrev pub or_else {ℓ} : {A : Type ℓ} → Option A → Option A → Option A
or_else (some a) o = some a
or_else none o = o

-- The scan of all buckets for a name whose priority is not known.
unfoldable pub scan_buckets : String → Dict ℤ (List String) → Option (ℤ × ℕ)
scan_buckets name [] = none
scan_buckets name ((p, bucket) ∷ rest) =
    or_else (at_priority p (index_of name bucket)) (scan_buckets name rest)

unfoldable pub find_handler_position : Dict ℤ (List String) → String → Option ℤ → Option (ℤ × ℕ)
find_handler_position b name (some p) = elim (get p b) [
  | none ↦ none
  | some bucket ↦ at_priority p (index_of name bucket)
]
find_handler_position b name none = scan_buckets name b

pub position : Registry → String → Option (ℤ × ℕ)
position r name = find_handler_position r.priority_buckets name (get_handler_priority r name)

unfoldable pub invalidate_matching_chains : Handler → Registry → Registry
invalidate_matching_chains h r = record r {
  cached_chain = select (λ entry. not (matches_handler h entry.0)) r.cached_chain;
}

-- The bucket is discarded when it is empty.
abbrev pub set_bucket : ℤ → List String → Dict ℤ (List String) → Dict ℤ (List String)
set_bucket p [] b = del p b
set_bucket p (n ∷ ns) b = put p (n ∷ ns) b

pub remove_from_bucket : String → Registry → Registry
remove_from_bucket name r = elim (position r name) [
  | none ↦ r
  | some (p, i) ↦ record r {
    priority_buckets =
        set_bucket p (remove_at i (bucket_of p r.priority_buckets)) r.priority_buckets;
  }
]

unfoldable pub unregister_handler : Registry → String → Bool → Registry × Result (Unit {0})
unregister_handler r name missing_ok = elim (get name r.registry) [
  | none ↦ (r, if missing_ok then ok tt else raise handler_not_registered)
  | some h ↦
      let emptied = remove_from_bucket name (invalidate_matching_chains h r) in
      (record emptied { registry = del name emptied.registry }, ok tt)
]

-- The index at which the new name goes, or the exception of `bucket.index`.
unfoldable pub insertion_index : Option Boundaries → List String → Result (Option ℕ)
insertion_index none bucket = ok none
insertion_index (some b) bucket = elim b.right [
  | some right ↦ elim (index_of right bucket) [ none ↦ raise value_error | some i ↦ ok (some i) ]
  | none ↦ elim b.left [
    | none ↦ raise value_error
    | some left ↦ elim (index_of left bucket) [
      | none ↦ raise value_error
      | some i ↦ ok (some (i + 1))
    ]
  ]
]

abbrev pub insert_name : Option ℕ → String → List String → List String
insert_name none name bucket = bucket ++ name ∷ []
insert_name (some i) name bucket = insert_at i name bucket

-- The rest of `register_handler` behind its validation.
unfoldable pub insert_handler : Registry → ℤ → Handler → Registry × Result (Unit {0})
insert_handler r p h =
    let entry = record h { register_order = r.register_order } in
    let bucket = bucket_of p r.priority_buckets in
    let stored = record r {
      registry = put h.name entry r.registry;
      priority_buckets = put p bucket r.priority_buckets;
    } in
    elim (insertion_index h.between_handlers bucket) [
      | raise e ↦ (stored, raise e)
      | ok i ↦ (
        record (invalidate_matching_chains entry stored) {
          priority_buckets = put p (insert_name i h.name bucket) r.priority_buckets;
          register_order = r.register_order + 1;
        },
        ok tt,
      )
    ]

-- Whether the handler of that name takes the event.
abbrev pub accepts : Registry → String → String → Bool
accepts r event_name name = elim (get name r.registry) [
  | none ↦ false
  | some h ↦ matches_handler h event_name
]

-- What a chain is: the active handlers that take the event, in order. No cache is read.
pub resolve : Registry → String → List String
resolve r event_name = select (accepts r event_name) (active_handler_names r)

rebuild : Registry → String → Option (Option (List String)) → Registry × Result (List String)
unfolding resolve
rebuild r event_name (some (some chain)) = (r, ok chain)
rebuild r event_name _ =
    let chain = resolve r event_name in
    (record r { cached_chain = put event_name (some chain) r.cached_chain }, ok chain)

pub get_handlers_chain_for_event : Registry → String → Registry × Result (List String)
unfolding rebuild
get_handlers_chain_for_event r event_name =
    if event_name == ""
    then (r, raise value_error)
    else rebuild r event_name (get event_name r.cached_chain)
