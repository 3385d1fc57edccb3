-- ===== src/Event/Registry/Register.antt =====
-- `register_handler` of source/apixis/core/event/handler_registry.py, and the queries beside it.
use apixis.Base.{
  String, Bool, true, not, ◌&&◌, List, [], ◌∷◌, Option, none, some, Result, ok, raise, ◌>>=◌,
  handler_not_registered, key_error, string_eq, any, select,
}
use apixis.Base.Int.{ℤ}
use apixis.Base.Dict.{Dict, get, has}
use apixis.Event.Glob.{fnmatchcase}
use apixis.Event.Registry.{
  Handler, Registry, unregister_handler, insert_handler, get_handlers_chain_for_event,
}
use apixis.Event.Registry.Validate.{Entry, validate}

-- A failed validation changes nothing; a valid entry replaces the handler of its name.
abbrev pub commit : Registry → Result (ℤ × Handler) → Registry × Result (Unit {0})
commit r (raise x) = (r, raise x)
commit r (ok (p, h)) = insert_handler (unregister_handler r h.name true).0 p h

unfoldable pub register_handler : Registry → Entry → Bool → Registry × Result (Unit {0})
register_handler r e exist_ok = commit r (validate r e exist_ok)

unfoldable pub get_handler : Registry → String → Option Handler
get_handler r name = get name r.registry

pub is_registered : Registry → String → Bool
is_registered r name = has name r.registry

-- `[self.registry[name] for name in chain]`
abbrev pub look_up : Dict String Handler → List String → Result (List Handler)
look_up d [] = ok []
look_up d (name ∷ names) = elim (get name d) [
  | none ↦ raise key_error
  | some h ↦ look_up d names >>= λ hs. ok (h ∷ hs)
]

unfoldable pub get_handlers_for_event : Registry → String → Registry × Result (List Handler)
get_handlers_for_event r event_name =
    let (r', chain) = get_handlers_chain_for_event r event_name in
    (r', chain >>= look_up r'.registry)

-- The observed names are those of the event registry.
pub get_unmatched_subscriptions : Registry → List String → String → Result (List String)
get_unmatched_subscriptions r observed name = elim (get name r.registry) [
  | none ↦ raise handler_not_registered
  | some h ↦ ok (
      select
        (λ s.
          not (
            any (λ n. fnmatchcase n s && not (any (λ p. fnmatchcase n p) h.filter_event)) observed))
        h.subscribe)
]
