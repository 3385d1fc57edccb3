-- ===== src/Event/Registry/Chains.antt =====
-- What the cache of chains of source/apixis/core/event/handler_registry.py may hold, and what a chain
-- depends on.
use apixis.Base.{
  String, Bool, false, not, ◌≡◌, refl, List, [], ◌∷◌, Option, none, some, inl, inr, arith,
  string_eq, select, remove_at, IsUnique, Option-cases,
}
use apixis.Base.Int.{ℤ, int_eq}
use apixis.Base.Dict.{Dict, keys, get, get-select, IsUnique-put, IsUnique-del}
use apixis.Event.Registry.{
  init, Registry, Handler, bucket_of, set_bucket, accepts, resolve, active_handler_names,
  matches_handler, remove_from_bucket, position, sort_desc,
}
use apixis.Event.Registry.Buckets.{
  chain_of, select-each_bucket, chain_of-set_bucket, select-remove_at, passing, gather_congr,
}
use apixis.Event.Registry.Positions.{HasUniquePriorities, position-at}

-- What the cache holds of an event is that chain, if it holds one.
abbrev pub IsCurrent : Option (Option (List String)) → List String → Type 0
IsCurrent (some (some chain)) resolved = chain ≡ resolved
IsCurrent (some none) resolved = Unit
IsCurrent none resolved = Unit

-- No priority has two buckets, and no cached chain is stale.
pub record IsCoherent (r : Registry) : Type 0 where
  pub unique_priorities : HasUniquePriorities r
  pub current :
      (event_name : String) → IsCurrent (get event_name r.cached_chain) (resolve r event_name)

pub init-IsCoherent : IsCoherent init
unfolding get
init-IsCoherent = record { unique_priorities = tt; current = λ ev. tt }

chain-IsCurrent :
    (o : Option (Option (List String))) (resolved chain : List String)
    → IsCurrent o resolved
    → o ≡ some (some chain)
    → chain ≡ resolved
chain-IsCurrent none resolved chain c e = cc e
chain-IsCurrent (some none) resolved chain c e = cc e
chain-IsCurrent (some (some old)) resolved chain c e = cc (c, e)

pub current-chain :
    {r : Registry} (c : IsCoherent r) (ev : String) (chain : List String)
    → get ev r.cached_chain ≡ some (some chain)
    → chain ≡ resolve r ev
current-chain {r = r} c ev chain e =
    chain-IsCurrent (get ev r.cached_chain) (resolve r ev) chain (c.current ev) e

pub IsCurrent-if :
    (o : Option (Option (List String))) (resolved : List String)
    → ((chain : List String) → o ≡ some (some chain) → chain ≡ resolved)
    → IsCurrent o resolved
IsCurrent-if none resolved f = tt
IsCurrent-if (some none) resolved f = tt
IsCurrent-if (some (some chain)) resolved f = f chain refl

pub resolve-eq-chain_of :
    (r : Registry) (ev : String) → resolve r ev ≡ chain_of (accepts r ev) r.priority_buckets
unfolding resolve active_handler_names
resolve-eq-chain_of r ev =
    select-each_bucket (accepts r ev) r.priority_buckets (sort_desc (keys r.priority_buckets))

select_congr :
    (t u : String → Bool)
    → ((n : String) → t n ≡ u n)
    → (xs : List String) → select t xs ≡ select u xs
select_congr t u h [] = refl
select_congr t u h (x ∷ xs) = ground (arith, h x, select_congr t u h xs)

pub chain_of_congr :
    (t u : String → Bool) (b : Dict ℤ (List String))
    → ((n : String) → t n ≡ u n)
    → chain_of t b ≡ chain_of u b
chain_of_congr t u b h =
    gather_congr (passing t b) (passing u b) (λ p. select_congr t u h (bucket_of p b))
      (sort_desc (keys b))

-- The order of an event is unchanged by the removal of a name that does not take it.
pub chain_of-remove_from_bucket :
    (t : String → Bool) (r : Registry) (name : String)
    → HasUniquePriorities r
    → t name ≡ false
    → chain_of t (remove_from_bucket name r).priority_buckets ≡ chain_of t r.priority_buckets
unfolding remove_from_bucket
chain_of-remove_from_bucket t r name u h = elim (Option-cases (position r name)) [
  | inl e ↦ rw (e, remove_from_bucket)
  | inr ((p, i), e) ↦
      rw (e, remove_from_bucket)
        (chain_of-set_bucket t p (remove_at i (bucket_of p r.priority_buckets)) r.priority_buckets (
          select-remove_at t name i (bucket_of p r.priority_buckets) (position-at r name p i u e)
            h))
]

buckets-IsUnique :
    (p : ℤ) (ns : List String) (b : Dict ℤ (List String))
    → IsUnique (keys b)
    → IsUnique (keys (set_bucket p ns b))
buckets-IsUnique p [] b u = IsUnique-del p b u
buckets-IsUnique p (n ∷ ns) b u = IsUnique-put p (n ∷ ns) b u

pub remove_from_bucket-IsUnique :
    (r : Registry) (name : String)
    → HasUniquePriorities r
    → HasUniquePriorities (remove_from_bucket name r)
unfolding remove_from_bucket
remove_from_bucket-IsUnique r name u = elim (Option-cases (position r name)) [
  | inl e ↦ rw (e, remove_from_bucket) u
  | inr ((p, i), e) ↦
      rw (e, remove_from_bucket)
        (buckets-IsUnique p (remove_at i (bucket_of p r.priority_buckets)) r.priority_buckets u)
]

-- Nothing but the buckets is touched.
pub rest-remove_from_bucket :
    (r : Registry) (name : String)
    → ((remove_from_bucket name r).registry ≡ r.registry)
      × ((remove_from_bucket name r).cached_chain ≡ r.cached_chain)
      × ((remove_from_bucket name r).register_order ≡ r.register_order)
unfolding remove_from_bucket
rest-remove_from_bucket r name = elim (Option-cases (position r name)) [
  | inl e ↦ rw (e, remove_from_bucket) (refl, refl, refl)
  | inr ((p, i), e) ↦ rw (e, remove_from_bucket) (refl, refl, refl)
]

-- A chain that survives an invalidation does not take the handler, and was there before.
pub get-kept :
    (h : Handler) (d : Dict String (Option (List String))) (ev : String) (chain : List String)
    → get ev (select (λ x. not (matches_handler h x.0)) d) ≡ some (some chain)
    → (matches_handler h ev ≡ false) × (get ev d ≡ some (some chain))
get-kept h d ev chain e = ground (arith, get-select (λ n. not (matches_handler h n)) ev d)
