-- ===== src/Event/Registry/Priorities.antt =====
-- A property of every priority in use, through the operations of
-- source/apixis/core/event/handler_registry.py.
use apixis.Base.{
  ℕ, String, Bool, true, ◌≡◌, refl, sym, subst, List, [], ◌∷◌, Option, none, some, Result, ok,
  raise, >>=-eq-ok, inl, inr, ◌⊎◌, Error, arith, contains, without, index_of, remove_at,
  is_some-index_of, All, Bool-cases, Option-cases, string_eq,
}
use apixis.Base.Int.{ℤ, int_eq, eqb_ℤ, eqb_ℤ_iff}
use apixis.Base.Dict.{Dict, get, keys, keys-del, contains-keys}
use apixis.Event.Registry.{
  Registry, Handler, Boundaries, bucket_of, set_bucket, position, remove_from_bucket,
  unregister_handler, insert_handler, insertion_index, insert_name, invalidate_matching_chains,
}
use apixis.Event.Registry.Positions.{HasUniquePriorities, position-at}
use apixis.Event.Registry.Append.{All-keys-put}
use apixis.Event.Registry.Validate.{
  Entry, finite, not_finite, not_number, Number, validate, place, check_entry, check_priority,
  normalise_patterns, normalise_filters, validate_between_handlers, placed_between,
  placed_by_priority,
}
use apixis.Event.Registry.Validate.Sound.{IsPlaceable, place-IsPlaceable}
use apixis.Event.Registry.Register.{register_handler, commit}

pub Result-cases {ℓ} :
    {A : Type ℓ} (o : Result A) → ((a : A) × (o ≡ ok a)) ⊎ ((x : Error) × (o ≡ raise x))
Result-cases (ok a) = inl (a, refl)
Result-cases (raise x) = inr (x, refl)

module _ (P : ℤ → Type 0) where
  All-contains : (p : ℤ) (ps : List ℤ) → All P ps → contains p ps ≡ true → P p
  All-contains p [] all h = cc h
  All-contains p (q ∷ qs) all h = elim (Bool-cases (eqb_ℤ q p)) [
    | inl e ↦ subst P ((eqb_ℤ_iff q p).0 e) all.0
    | inr n ↦ All-contains p qs all.1 (ground (arith, h, n))
  ]

  All-without : (p : ℤ) (ps : List ℤ) → All P ps → All P (without p ps)
  All-without p [] all = tt
  All-without p (q ∷ qs) all = elim (Bool-cases (eqb_ℤ q p)) [
    | inl e ↦ rw e (All-without p qs all.1)
    | inr n ↦ rw n (all.0, All-without p qs all.1)
  ]

  -- A bucket with a name in it is the bucket of a priority in use.
  in_use :
      (b : Dict ℤ (List String)) (p : ℤ) (name : String)
      → All P (keys b)
      → contains name (bucket_of p b) ≡ true
      → P p
  in_use b p name all h =
      All-contains p (keys b) all (ground (arith, h, contains-keys p b, Option-cases (get p b)))

  All-set_bucket :
      (p : ℤ) (names : List String) (b : Dict ℤ (List String))
      → P p
      → All P (keys b)
      → All P (keys (set_bucket p names b))
  All-set_bucket p [] b h all = rw (keys-del p b) (All-without p (keys b) all)
  All-set_bucket p (n ∷ ns) b h all = All-keys-put P p (n ∷ ns) b h all

  All-remove_from_bucket :
      (r : Registry) (name : String)
      → HasUniquePriorities r
      → All P (keys r.priority_buckets)
      → All P (keys (remove_from_bucket name r).priority_buckets)
  unfolding remove_from_bucket
  All-remove_from_bucket r name u all = elim (Option-cases (position r name)) [
    | inl e ↦ rw (e, remove_from_bucket) all
    | inr ((p, i), e) ↦
        rw (e, remove_from_bucket)
          (All-set_bucket p (remove_at i (bucket_of p r.priority_buckets)) r.priority_buckets
            (in_use r.priority_buckets p name all (held p i (position-at r name p i u e))) all)
  ]
    where
      held :
          (p : ℤ) (i : ℕ)
          → index_of name (bucket_of p r.priority_buckets) ≡ some i
          → contains name (bucket_of p r.priority_buckets) ≡ true
      held p i h = ground (arith, h, is_some-index_of name (bucket_of p r.priority_buckets))

  pub All-unregister_handler :
      (r : Registry) (name : String) (missing_ok : Bool)
      → HasUniquePriorities r
      → All P (keys r.priority_buckets)
      → All P (keys (unregister_handler r name missing_ok).0.priority_buckets)
  unfolding unregister_handler invalidate_matching_chains
  All-unregister_handler r name missing_ok u all = elim (Option-cases (get name r.registry)) [
    | inl unknown ↦ rw (unknown, unregister_handler) all
    | inr (h, found) ↦
        rw (found, unregister_handler)
          (All-remove_from_bucket (invalidate_matching_chains h r) name u all)
  ]

  All-insert_handler :
      (r : Registry) (p : ℤ) (h : Handler)
      → P p
      → All P (keys r.priority_buckets)
      → All P (keys (insert_handler r p h).0.priority_buckets)
  unfolding insert_handler invalidate_matching_chains
  All-insert_handler r p h holds all =
      elim (Result-cases (insertion_index h.between_handlers (bucket_of p r.priority_buckets))) [
        | inl (i, e) ↦
            rw (e, insert_handler)
              (All-keys-put P p (insert_name i h.name (bucket_of p r.priority_buckets))
                r.priority_buckets holds all)
        | inr (x, e) ↦
            rw (e, insert_handler)
              (All-keys-put P p (bucket_of p r.priority_buckets) r.priority_buckets holds all)
      ]

  placeable_in_use :
      (r : Registry) (p : ℤ) (name : String) (l t : Option String)
      → IsPlaceable r p name (some (record { left = l; right = t }))
      → All P (keys r.priority_buckets)
      → P p
  placeable_in_use r p name l (some t) h all = in_use r.priority_buckets p t all h.0
  placeable_in_use r p name (some l) none h all = in_use r.priority_buckets p l all h.0
  placeable_in_use r p name none none h all = absurd h

  -- The priority that the entry names, if any.
  abbrev pub GivesOnly : Entry → Type 0
  GivesOnly e = (p : ℤ) → e.priority ≡ some (finite p) → P p

  given_priority : (o : Option Number) (p : ℤ) → check_priority o ≡ ok p → o ≡ some (finite p)
  given_priority (some (finite q)) p h = cc h
  given_priority (some not_finite) p h = cc h
  given_priority (some not_number) p h = cc h
  given_priority none p h = cc h

  place_in_use :
      (r : Registry) (e : Entry) (p : ℤ) (q : Option ℤ) (b : Option Boundaries)
      → HasUniquePriorities r
      → GivesOnly e
      → All P (keys r.priority_buckets)
      → place r e ≡ ok (p, q, b)
      → P p
  unfolding place
  place_in_use r e p q b u only all h = elim (Option-cases e.between_handlers) [
    | inl unbound ↦
        let (p', hp, made) =
          >>=-eq-ok (check_priority e.priority) placed_by_priority (rw (unbound, place) at h) in
        let same : p' ≡ p = cc made in subst P same (only p' (given_priority e.priority p' hp))
    | inr (a, bound) ↦
        let (p', hp, made) =
          >>=-eq-ok (validate_between_handlers r a e.name) placed_between
            (rw (bound, place) at h) in
        let same : some p'.1 ≡ b = cc made in
        placeable_in_use r p e.name p'.1.left p'.1.right
          (subst (IsPlaceable r p e.name) (sym same) (place-IsPlaceable r e p q b u h)) all
  ]

  validate_in_use :
      (r : Registry) (e : Entry) (exist_ok : Bool) (p : ℤ) (h : Handler)
      → HasUniquePriorities r
      → GivesOnly e
      → All P (keys r.priority_buckets)
      → validate r e exist_ok ≡ ok (p, h)
      → P p
  unfolding validate
  validate_in_use r e exist_ok p h u only all v =
      let (_, hc, v1) = >>=-eq-ok (check_entry r e exist_ok) _ v in
      let (subscriptions, hs, v2) = >>=-eq-ok (normalise_patterns e.subscribe) _ v1 in
      let (filters, hf, v3) = >>=-eq-ok (normalise_filters e.filter_event) _ v2 in
      let (placed, hp, v4) = >>=-eq-ok (place r e) _ v3 in
      let same : placed.0 ≡ p = cc v4 in
      subst P same (place_in_use r e placed.0 placed.1 placed.2 u only all hp)

  commit_in_use :
      (r : Registry) (e : Entry) (exist_ok : Bool) (v : Result (ℤ × Handler))
      → HasUniquePriorities r
      → GivesOnly e
      → All P (keys r.priority_buckets)
      → validate r e exist_ok ≡ v
      → All P (keys (commit r v).0.priority_buckets)
  commit_in_use r e exist_ok (raise x) u only all valid = all
  commit_in_use r e exist_ok (ok (p, h)) u only all valid =
      All-insert_handler (unregister_handler r h.name true).0 p h
        (validate_in_use r e exist_ok p h u only all valid)
        (All-unregister_handler r h.name true u all)

  pub All-register_handler :
      (r : Registry) (e : Entry) (exist_ok : Bool)
      → HasUniquePriorities r
      → GivesOnly e
      → All P (keys r.priority_buckets)
      → All P (keys (register_handler r e exist_ok).0.priority_buckets)
  unfolding register_handler
  All-register_handler r e exist_ok u only all =
      commit_in_use r e exist_ok (validate r e exist_ok) u only all refl
