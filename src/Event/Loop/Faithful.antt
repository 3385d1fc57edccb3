-- ===== src/Event/Loop/Faithful.antt =====
-- Captured handlers that take their events, and what the resolution of a dequeued event gives
-- (source/apixis/core/event/event_loop.py).
use apixis.Base.{
  ℕ, String, true, List, [], ◌∷◌, ◌++◌, Option, none, some, Result, ◌≡◌, refl, arith, if_cases, All,
  ◌==◌, string_eq,
}
use apixis.Event.Handler.{ApixEvent}
use apixis.Event.Registry.{Registry, Handler, matches_handler}
use apixis.Event.Registry.Chains.{IsCoherent}
use apixis.Event.Registry.Coherence.{get_handlers_chain_for_event_lem}
use apixis.Event.Registry.Register.{get_handlers_for_event}
use apixis.Event.Registry.Dequeue.{Captures, get_handlers_for_event-Captures}
use apixis.Event.Permits.Balance.{IsBalanced}
use apixis.Event.Loop.{EventLoop, Captured, resolve_handlers}

-- Every handler takes the event.
abbrev pub IsFor : Captured → Type 0
IsFor c = All (λ h. matches_handler h c.event.event_name ≡ true) c.handlers

abbrev pub AllFor? : Option Captured → Type 0
AllFor? none = Unit
AllFor? (some c) = IsFor c

pub record IsFaithful (bound : ℕ) (l : EventLoop) : Type 0 where
  pub coherent : IsCoherent l.registry
  pub pending : AllFor? l.pending
  pub dispatched : All IsFor l.dispatched
  pub resolved : l.unresolved ≡ []
  pub balanced : IsBalanced bound l.permits

pub All-snoc :
    (P : Captured → Type 0) (xs : List Captured) (x : Captured)
    → All P xs
    → P x
    → All P (xs ++ x ∷ [])
All-snoc P [] x h k = (k, tt)
All-snoc P (y ∷ ys) x h k = (h.0, All-snoc P ys x h.1 k)

get_handlers_for_event-IsCoherent :
    (r : Registry) (ev : String) → IsCoherent r → IsCoherent (get_handlers_for_event r ev).0
unfolding get_handlers_for_event
get_handlers_for_event-IsCoherent r ev c = (get_handlers_chain_for_event_lem r ev c).1

-- What a resolution leaves and answers on a coherent registry.
pub resolve_handlers-IsCoherent :
    (e : ApixEvent) (r : Registry) → IsCoherent r → IsCoherent (resolve_handlers e r).0
unfolding resolve_handlers
resolve_handlers-IsCoherent e r c =
    if_cases (λ (p : Registry × Result (List Handler)). IsCoherent p.0) (e.event_name == "") _ _
      (λ nameless. c) (λ named. get_handlers_for_event-IsCoherent r e.event_name c)

pub resolve_handlers-Captures :
    (e : ApixEvent) (r : Registry) → IsCoherent r → Captures e.event_name (resolve_handlers e r).1
unfolding resolve_handlers
resolve_handlers-Captures e r c =
    if_cases (λ (p : Registry × Result (List Handler)). Captures e.event_name p.1)
      (e.event_name == "") _ _ (λ nameless. ([], refl, tt))
      (λ named.
        get_handlers_for_event-Captures r e.event_name c
          (λ same. ground (arith, named, same, string_eq.beq_iff e.event_name "")))
