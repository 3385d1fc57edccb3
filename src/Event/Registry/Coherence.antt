-- ===== src/Event/Registry/Coherence.antt =====
-- The operations of source/apixis/core/event/handler_registry.py and the cache of chains.
use apixis.Base.{
  ℕ, zero, suc, ◌+◌, String, Bool, false, not, ◌≡◌, refl, ap, ◌∙◌, sym, List, [], ◌∷◌, Option, none,
  some, inl, inr, arith, ok, raise, value_error, ◌==◌, string_eq, if◌then◌else◌, select, insert_at,
  ◌++◌, Option-cases, Bool-cases,
}
use apixis.Base.Int.{ℤ, int_eq}
use apixis.Base.Dict.{Dict, get, put, del, get-put, get-del, IsUnique-put}
use apixis.Event.Registry.{
  Registry, Handler, bucket_of, set_bucket, accepts, resolve, active_handler_names, matches_handler,
  remove_from_bucket, invalidate_matching_chains, unregister_handler, insert_name,
  get_handlers_chain_for_event, rebuild,
}
use apixis.Event.Registry.Buckets.{chain_of, chain_of-set_bucket, select-insert_name}
use apixis.Event.Registry.Chains.{
  IsCoherent, current-chain, IsCurrent-if, resolve-eq-chain_of, chain_of_congr,
  chain_of-remove_from_bucket, remove_from_bucket-IsUnique, rest-remove_from_bucket, get-kept,
}

module _ (r : Registry) (name : String) (h : Handler) (found : get name r.registry ≡ some h)
    (c : IsCoherent r) where
  abbrev invalidated : Registry
  invalidated = invalidate_matching_chains h r

  abbrev removed : Registry
  removed =
      let s = remove_from_bucket name (invalidate_matching_chains h r) in
      record s { registry = del name s.registry }

  accepts-removed :
      (ev : String)
      → matches_handler h ev ≡ false
      → (n : String) → accepts removed ev n ≡ accepts r ev n
  unfolding invalidate_matching_chains
  accepts-removed ev miss n =
      rw
        (
          (rest-remove_from_bucket (invalidate_matching_chains h r) name).0,
          accepts,
          get-del name n r.registry,
        )
        (ground (arith, found, string_eq.beq_iff name n))

  resolve-removed : (ev : String) → matches_handler h ev ≡ false → resolve removed ev ≡ resolve r ev
  unfolding invalidate_matching_chains
  resolve-removed ev miss =
      resolve-eq-chain_of removed ev
      ∙ chain_of_congr (accepts removed ev) (accepts r ev) removed.priority_buckets
          (accepts-removed ev miss)
      ∙ chain_of-remove_from_bucket (accepts r ev) invalidated name c.unique_priorities
          (rw (accepts, found) miss)
      ∙ sym (resolve-eq-chain_of r ev)

  removed-IsCoherent : IsCoherent removed
  unfolding invalidate_matching_chains
  removed-IsCoherent = record {
    unique_priorities = remove_from_bucket-IsUnique invalidated name c.unique_priorities;
    current = λ ev. IsCurrent-if _ _ λ chain cached.
        let kept : get ev (select (λ x. not (matches_handler h x.0)) r.cached_chain)
            ≡ some (some chain) =
          ap (get ev) (sym (rest-remove_from_bucket invalidated name).1) ∙ cached in
        let (miss, old) = get-kept h r.cached_chain ev chain kept in
        current-chain c ev chain old ∙ sym (resolve-removed ev miss);
  }

-- Unregistering a handler leaves a coherent registry coherent, whether the name is known or not: no
-- cached chain is stale.
pub unregister_handler-IsCoherent :
    (r : Registry) (name : String) (missing_ok : Bool)
    → IsCoherent r
    → IsCoherent (unregister_handler r name missing_ok).0
unfolding unregister_handler
unregister_handler-IsCoherent r name missing_ok c = elim (Option-cases (get name r.registry)) [
  | inl absent ↦ rw (absent, unregister_handler) c
  | inr (h, found) ↦ rw (found, unregister_handler) (removed-IsCoherent r name h found c)
]

insert_at-cons :
    (i : ℕ) (n : String) (xs : List String)
    → (y : String) × (ys : List String) × (insert_at i n xs ≡ y ∷ ys)
insert_at-cons zero n xs = (n, xs, refl)
insert_at-cons (suc i) n [] = (n, [], refl)
insert_at-cons (suc i) n (x ∷ xs) = (x, insert_at i n xs, refl)

-- A bucket with a new name is not empty.
pub put-insert_name :
    (p : ℤ) (n : String) (i : Option ℕ) (b : Dict ℤ (List String))
    → set_bucket p (insert_name i n (bucket_of p b)) b ≡ put p (insert_name i n (bucket_of p b)) b
put-insert_name p n (some i) b = let (y, ys, e) = insert_at-cons i n (bucket_of p b) in rw e
put-insert_name p n none b = last-cons (bucket_of p b)
  where
    last-cons : (xs : List String) → set_bucket p (xs ++ n ∷ []) b ≡ put p (xs ++ n ∷ []) b
    last-cons [] = refl
    last-cons (x ∷ xs) = refl

module _ (r : Registry) (p : ℤ) (h : Handler) (c : IsCoherent r) (i : Option ℕ)
    (fresh : get h.name r.registry ≡ none) where
  abbrev pub entry : Handler
  entry = record h { register_order = r.register_order }

  abbrev pub inserted : Registry
  inserted = record (invalidate_matching_chains entry r) {
    registry = put h.name entry r.registry;
    priority_buckets =
        put p (insert_name i h.name (bucket_of p r.priority_buckets)) r.priority_buckets;
    register_order = r.register_order + 1;
  }

  accepts-inserted :
      (ev : String)
      → matches_handler h ev ≡ false
      → (n : String) → accepts inserted ev n ≡ accepts r ev n
  unfolding invalidate_matching_chains matches_handler
  accepts-inserted ev miss n =
      rw (accepts, get-put h.name n entry r.registry)
        (ground (arith, fresh, string_eq.beq_iff h.name n))

  resolve-inserted :
      (ev : String) → matches_handler h ev ≡ false → resolve inserted ev ≡ resolve r ev
  unfolding invalidate_matching_chains
  resolve-inserted ev miss =
      resolve-eq-chain_of inserted ev
      ∙ chain_of_congr (accepts inserted ev) (accepts r ev) inserted.priority_buckets
          (accepts-inserted ev miss)
      ∙ ap (chain_of (accepts r ev)) (sym (put-insert_name p h.name i r.priority_buckets))
      ∙ chain_of-set_bucket (accepts r ev) p (insert_name i h.name (bucket_of p r.priority_buckets))
          r.priority_buckets
          (select-insert_name (accepts r ev) h.name i (bucket_of p r.priority_buckets)
            (rw (accepts, fresh)))
      ∙ sym (resolve-eq-chain_of r ev)

  pub inserted-IsCoherent : IsCoherent inserted
  unfolding invalidate_matching_chains matches_handler
  inserted-IsCoherent = record {
    unique_priorities =
        IsUnique-put p (insert_name i h.name (bucket_of p r.priority_buckets)) r.priority_buckets
          c.unique_priorities;
    current = λ ev. IsCurrent-if _ _ λ chain cached.
        let (miss, old) = get-kept h r.cached_chain ev chain cached in
        current-chain c ev chain old ∙ sym (resolve-inserted ev miss);
  }

rebuild-eq-resolve :
    (r : Registry) (ev : String) (o : Option (Option (List String)))
    → IsCoherent r
    → get ev r.cached_chain ≡ o
    → (rebuild r ev o).1 ≡ ok (resolve r ev)
unfolding rebuild
rebuild-eq-resolve r ev (some (some chain)) c e = ap ok (current-chain c ev chain e)
rebuild-eq-resolve r ev (some none) c e = refl
rebuild-eq-resolve r ev none c e = refl

rebuild-IsCoherent :
    (r : Registry) (ev : String) (o : Option (Option (List String)))
    → IsCoherent r
    → IsCoherent (rebuild r ev o).0
unfolding rebuild resolve active_handler_names
rebuild-IsCoherent r ev (some (some chain)) c = c
rebuild-IsCoherent r ev _ c = record {
  unique_priorities = c.unique_priorities;
  current = λ ev'. IsCurrent-if _ _ λ chain cached. elim (Bool-cases (ev == ev')) [
    | inl same ↦
        ground
          (arith, get-put ev ev' (some (resolve r ev)) r.cached_chain, string_eq.beq_iff ev ev')
    | inr other ↦
        current-chain c ev' chain
          (ground (arith, get-put ev ev' (some (resolve r ev)) r.cached_chain))
  ];
}

-- On a coherent registry the query of an event answers with its resolution, cached or not, and
-- leaves a coherent registry; the empty name raises `ValueError`.
pub get_handlers_chain_for_event_lem :
    (r : Registry) (ev : String)
    → IsCoherent r
    → ((get_handlers_chain_for_event r ev).1
        ≡ (if ev == "" then raise value_error else ok (resolve r ev)))
      × IsCoherent (get_handlers_chain_for_event r ev).0
unfolding get_handlers_chain_for_event
get_handlers_chain_for_event_lem r ev c = elim (Bool-cases (ev == "")) [
  | inl empty ↦ rw empty (refl, c)
  | inr named ↦ rw named (
    rebuild-eq-resolve r ev (get ev r.cached_chain) c refl,
    rebuild-IsCoherent r ev (get ev r.cached_chain) c,
  )
]
