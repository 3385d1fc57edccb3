-- ===== src/Graph/Hooks/Owned.antt =====
-- What the decomposition of a graph leaves in the registry of the process
-- (source/apixis/core/graph/node_graph.py).
use apixis.Base.{
  ℕ, String, Bool, true, false, ◌&&◌, [], ◌∷◌, Option, none, some, if◌then◌else◌, ◌==◌, string_eq,
  eqb, any, nat_eq, Bool-cases, inl, inr, ◌≡◌, refl, ap, arith, ◌∙◌, eq_true, if_cases,
}
use apixis.Base.Dict.{Dict, get}
use apixis.Event.Registry.{Registry, Handler, unregister_handler}
use apixis.Event.Registry.Entries.{registry-unregister_handler}
use apixis.Event.Registry.Register.{get_handler}
use apixis.Event.Registry.Chains.{IsCoherent}
use apixis.Event.Registry.Coherence.{unregister_handler-IsCoherent}
use apixis.Event.Subscription.{unsubscribe}
use apixis.Graph.Hooks.{Listeners, is_same, unregister_owned, unregister_handlers}

-- The handler `h`, registered as `name`, is one of the graph's.
abbrev pub owns : Dict String ℕ → String → Handler → Bool
owns handlers name h = any (λ p. (p.0 == name) && eqb h.id p.1) handlers

-- What is registered as `name` when the graph's handlers are gone.
abbrev pub left_of : Dict String ℕ → String → Option Handler → Option Handler
left_of handlers name none = none
left_of handlers name (some h) = if owns handlers name h then none else some h

-- One turn of the loop, on a handler of the graph.
abbrev turn : String → ℕ → Registry → Registry
turn name id r = if is_same (get_handler r name) id then (unsubscribe r name true).0 else r

module _ (name : String) (id : ℕ) (r : Registry) where
  abbrev is_owned : Bool
  is_owned = is_same (get name r.registry) id

  get-turn :
      (n : String)
      → get n (turn name id r).registry
        ≡ (if is_owned && (name == n) then none else get n r.registry)
  unfolding get_handler unsubscribe
  get-turn n =
      if_cases
        (λ (q : Registry).
          get n q.registry ≡ (if is_owned && (name == n) then none else get n r.registry))
        is_owned (unregister_handler r name true).0 r
        (λ yes'. registry-unregister_handler r name n ∙ ground (arith, yes'))
        (λ no'. ground (arith, no'))

  left-turn :
      (hs : Dict String ℕ) (n : String)
      → left_of hs n (get n (turn name id r).registry)
        ≡ left_of ((name, id) ∷ hs) n (get n r.registry)
  left-turn hs n = ap (left_of hs n) (get-turn n) ∙ found (get n r.registry) is_owned same
    where
      same : (name == n) ≡ true → is_owned ≡ is_same (get n r.registry) id
      same e = ap (λ k. is_same (get k r.registry) id) (eq_true name n e)

      found :
          (o : Option Handler) (own : Bool)
          → ((name == n) ≡ true → own ≡ is_same o id)
          → left_of hs n (if own && (name == n) then none else o) ≡ left_of ((name, id) ∷ hs) n o
      found none true h = ground arith
      found none false h = refl
      found (some x) own h = elim (Bool-cases (name == n)) [
        | inl e ↦ ground (arith, e, h e)
        | inr e ↦ ground (arith, e)
      ]

-- The handlers of a graph are taken out of the registry one by one: the graph's that are still
-- registered go, and whatever else is registered under their names, or under others, stays.
registry-unregister_owned :
    (hs : Dict String ℕ) (r : Registry) (n : String)
    → get n (unregister_owned hs r).registry ≡ left_of hs n (get n r.registry)
unfolding get_handler unsubscribe
registry-unregister_owned [] r n = none_left (get n r.registry)
  where
    none_left : (o : Option Handler) → o ≡ left_of [] n o
    none_left none = refl
    none_left (some h) = refl
registry-unregister_owned ((name, id) ∷ hs) r n =
    registry-unregister_owned hs (turn name id r) n ∙ left-turn name id r hs n

unregister_owned-IsCoherent :
    (hs : Dict String ℕ) (r : Registry) → IsCoherent r → IsCoherent (unregister_owned hs r)
unfolding unsubscribe
unregister_owned-IsCoherent [] r c = c
unregister_owned-IsCoherent ((name, id) ∷ hs) r c =
    unregister_owned-IsCoherent hs (turn name id r) (
      if_cases (λ q. IsCoherent q) (is_same (get_handler r name) id) _ _
        (λ yes'. unregister_handler-IsCoherent r name true c) (λ no'. c))

-- The graph has let go of its handlers, the registry of those among them that were still registered.
abbrev pub Released : Listeners → Listeners → String → Type 0
Released l l' n =
    (l'.handlers ≡ [])
    × IsCoherent l'.registry
    × (get n l'.registry.registry ≡ left_of l.handlers n (get n l.registry.registry))

-- `_unregister_handlers` on a coherent registry: a name under which the graph's own handler is still
-- registered is unknown afterwards; a name that another handler has taken over keeps it, and so does
-- every other name. No cached chain is stale, and the graph has no handlers any more.
pub unregister_handlers-Released :
    (l : Listeners) (n : String) → IsCoherent l.registry → Released l (unregister_handlers l) n
unfolding unregister_handlers
unregister_handlers-Released l n c = (
  refl,
  unregister_owned-IsCoherent l.handlers l.registry c,
  registry-unregister_owned l.handlers l.registry n,
)
