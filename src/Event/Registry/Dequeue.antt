-- ===== src/Event/Registry/Dequeue.antt =====
-- What the event loop takes at dequeue: `get_handlers_for_event`
-- (source/apixis/core/event/handler_registry.py).
use apixis.Base.{
  String, true, ◌≡◌, ◌≢◌, refl, List, [], ◌∷◌, inl, inr, arith, Result, ok, string_eq, select, All,
  Option-cases, Bool-cases, eq_false,
}
use apixis.Base.Dict.{get}
use apixis.Event.Registry.{
  Registry, Handler, accepts, matches_handler, resolve, get_handlers_chain_for_event,
  active_handler_names,
}
use apixis.Event.Registry.Register.{look_up, get_handlers_for_event}
use apixis.Event.Registry.Chains.{IsCoherent}
use apixis.Event.Registry.Coherence.{get_handlers_chain_for_event_lem}

-- The result is a list of handlers that all take the event.
abbrev pub Captures : String → Result (List Handler) → Type 0
Captures ev result =
    (hs : List Handler) × (result ≡ ok hs) × All (λ h. matches_handler h ev ≡ true) hs

-- Only registered handlers pass the test, so every look-up finds one.
look_up-resolved :
    (r : Registry) (ev : String) (names : List String)
    → Captures ev (look_up r.registry (select (accepts r ev) names))
look_up-resolved r ev [] = ([], refl, tt)
look_up-resolved r ev (n ∷ ns) =
    let (hs, e, all) = look_up-resolved r ev ns in
    elim (Option-cases (get n r.registry)) [
      | inl absent ↦ (hs, rw (accepts, absent) e, all)
      | inr (h, found) ↦ elim (Bool-cases (matches_handler h ev)) [
        | inl hit ↦ (h ∷ hs, rw (accepts, found, hit) (rw (look_up, found, e)), (hit, all))
        | inr miss ↦ (hs, rw (accepts, found, miss) e, all)
      ]
    ]

registry-chain :
    (r : Registry) (ev : String) → (get_handlers_chain_for_event r ev).0.registry ≡ r.registry
unfolding get_handlers_chain_for_event
registry-chain r ev = ground (arith, Option-cases (get ev r.cached_chain))

-- On a coherent registry the handlers of a named event are captured without a `KeyError`, cached
-- chain or not, and every captured handler takes the event.
pub get_handlers_for_event-Captures :
    (r : Registry) (ev : String)
    → IsCoherent r
    → ev ≢ ""
    → Captures ev (get_handlers_for_event r ev).1
unfolding get_handlers_for_event
get_handlers_for_event-Captures r ev c named =
    rw ((get_handlers_chain_for_event_lem r ev c).0, eq_false ev "" named, registry-chain r ev)
      (resolved-Captures r ev)
  where
    resolved-Captures :
        (r : Registry) (ev : String) → Captures ev (look_up r.registry (resolve r ev))
    resolved-Captures r ev = unfold resolve in look_up-resolved r ev (active_handler_names r)
