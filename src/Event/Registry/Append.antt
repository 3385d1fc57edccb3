-- ===== src/Event/Registry/Append.antt =====
-- The order of the names after a registration at the greatest or at the smallest priority
-- (source/apixis/core/event/handler_registry.py).
use apixis.Base.{
  String, Bool, true, false, ◌≡◌, refl, ap, ◌∙◌, sym, subst, List, [], ◌∷◌, ◌++◌, append_assoc,
  append-nil, none, some, Result, ok, raise, >>=-eq-ok, inl, inr, arith, if◌then◌else◌, contains,
  contains-without, without, without_absent, without-append, All, IsUnique, Bool-cases,
  Option-cases, eq_self, is_some, string_eq,
}
use apixis.Base.Int.{ℤ, ltb_ℤ, int_eq}
use apixis.Base.Dict.{Dict, get, put, has, keys, keys-put, get-put, contains-keys, IsUnique-put}
use apixis.Event.Registry.{
  Registry, Handler, sort_desc, each_bucket, bucket_of, active_handler_names, unregister_handler,
  insert_handler, insertion_index, invalidate_matching_chains,
}
use apixis.Event.Registry.Sort.{AtMost, contains-sort_desc}
use apixis.Event.Registry.Extremes.{
  AtLeast, sort_desc-greatest, sort_desc-smallest, each_bucket-put, each_bucket-append,
}
use apixis.Event.Registry.Validate.{
  Entry, finite, validate, place, check_entry, normalise_patterns, normalise_filters, assembled,
}
use apixis.Event.Registry.Register.{register_handler, commit}

pub All-keys-put :
    (P : ℤ → Type 0) (p : ℤ) (names : List String) (b : Dict ℤ (List String))
    → P p
    → All P (keys b)
    → All P (keys (put p names b))
All-keys-put P p names b h all =
    subst (All P) (sym (keys-put p names b)) (ends (has p b) (keys b) all)
  where
    snoc : (qs : List ℤ) → All P qs → All P (qs ++ p ∷ [])
    snoc [] k = (h, tt)
    snoc (q ∷ qs) k = (k.0, snoc qs k.1)

    ends : (old : Bool) (qs : List ℤ) → All P qs → All P (if old then qs else qs ++ p ∷ [])
    ends true qs k = k
    ends false qs k = snoc qs k

without-keys-put :
    (p : ℤ) (names : List String) (b : Dict ℤ (List String))
    → without p (keys (put p names b)) ≡ without p (keys b)
without-keys-put p names b = ap (without p) (keys-put p names b) ∙ ends (has p b)
  where
    ends : (old : Bool) → without p (if old then keys b else keys b ++ p ∷ []) ≡ without p (keys b)
    ends true = refl
    ends false = without-append p (keys b) (p ∷ []) ∙ simp (eq_self p, append-nil)

contains-keys-put :
    (p : ℤ) (names : List String) (b : Dict ℤ (List String))
    → contains p (keys (put p names b)) ≡ true
contains-keys-put p names b =
    contains-keys p (put p names b) ∙ ap is_some (get-put p p names b) ∙ simp (eq_self p)

bucket_of-put :
    (p : ℤ) (names : List String) (b : Dict ℤ (List String)) → bucket_of p (put p names b) ≡ names
bucket_of-put p names b = rw (get-put p p names b, eq_self p) refl

-- The names bucket by bucket, in descending order of the priorities.
abbrev pub order : Dict ℤ (List String) → List String
order b = each_bucket b (sort_desc (keys b))

-- The names of all buckets but one.
abbrev pub others : ℤ → Dict ℤ (List String) → List String
others p b = each_bucket b (sort_desc (without p (keys b)))

module _ (p : ℤ) (b : Dict ℤ (List String)) (u : IsUnique (keys b)) where
  no_bucket : contains p (keys b) ≡ false → (bucket_of p b ≡ []) × (others p b ≡ order b)
  no_bucket h = (
    ground (arith, h, contains-keys p b, Option-cases (get p b)),
    ap (λ ps. each_bucket b (sort_desc ps)) (without_absent p (keys b) h),
  )

  greatest_order : AtMost p (keys b) → order b ≡ bucket_of p b ++ others p b
  unfolding each_bucket
  greatest_order most = elim (Bool-cases (contains p (keys b))) [
    | inl old ↦ ap (each_bucket b) (sort_desc-greatest p (keys b) old u most)
    | inr new ↦ let (empty, same) = no_bucket new in sym (ap (λ xs. xs ++ others p b) empty ∙ same)
  ]

  smallest_order : AtLeast p (keys b) → order b ≡ others p b ++ bucket_of p b
  unfolding each_bucket
  smallest_order least = elim (Bool-cases (contains p (keys b))) [
    | inl old ↦
        ap (each_bucket b) (sort_desc-smallest p (keys b) old u least)
        ∙ each_bucket-append b (sort_desc (without p (keys b))) (p ∷ [])
        ∙ ap (λ xs. others p b ++ xs) (append-nil (bucket_of p b))
    | inr new ↦
        let (empty, same) = no_bucket new in
        sym (ap (λ xs. others p b ++ xs) empty ∙ append-nil (others p b) ∙ same)
  ]

module _ (p : ℤ) (names : List String) (b : Dict ℤ (List String)) where
  others-put : others p (put p names b) ≡ others p b
  others-put =
      each_bucket-put p names b (sort_desc (without p (keys (put p names b)))) (
        contains-sort_desc p (without p (keys (put p names b)))
        ∙ contains-without p p (keys (put p names b))
        ∙ simp (eq_self p))
      ∙ ap (λ ps. each_bucket b (sort_desc ps)) (without-keys-put p names b)

abbrev pub appended : ℤ → String → Dict ℤ (List String) → Dict ℤ (List String)
appended p name b = put p (bucket_of p b ++ name ∷ []) b

module _ (p : ℤ) (name : String) (b : Dict ℤ (List String)) (u : IsUnique (keys b)) where
  -- At the greatest priority the new name comes behind those of the same priority and before all
  -- others.
  pub order-greatest :
      ltb_ℤ p p ≡ false
      → AtMost p (keys b)
      → (order b ≡ bucket_of p b ++ others p b)
        × (order (appended p name b) ≡ bucket_of p b ++ name ∷ others p b)
  order-greatest same most = (
    greatest_order p b u most,
    greatest_order p (appended p name b) (IsUnique-put p _ b u)
          (All-keys-put (λ q. ltb_ℤ p q ≡ false) p _ b same most)
        ∙ ap (λ xs. xs ++ others p (appended p name b)) (bucket_of-put p _ b)
        ∙ ap (λ xs. bucket_of p b ++ name ∷ [] ++ xs) (others-put p _ b)
        ∙ append_assoc (bucket_of p b) (name ∷ []) (others p b),
  )

  -- At the smallest priority the new name comes last.
  pub order-smallest :
      ltb_ℤ p p ≡ false → AtLeast p (keys b) → order (appended p name b) ≡ order b ++ name ∷ []
  order-smallest same least =
      smallest_order p (appended p name b) (IsUnique-put p _ b u)
        (All-keys-put (λ q. ltb_ℤ q p ≡ false) p _ b same least)
      ∙ ap (λ xs. others p (appended p name b) ++ xs) (bucket_of-put p _ b)
      ∙ ap (λ xs. xs ++ (bucket_of p b ++ name ∷ [])) (others-put p _ b)
      ∙ sym (append_assoc (others p b) (bucket_of p b) (name ∷ []))
      ∙ ap (λ xs. xs ++ name ∷ []) (sym (smallest_order p b u least))

pub unregister_fresh :
    (r : Registry) (name : String)
    → get name r.registry ≡ none
    → (unregister_handler r name true).0 ≡ r
unfolding unregister_handler
unregister_fresh r name fresh = rw (unregister_handler, fresh) refl

-- A valid entry that has a priority and no boundaries goes into the bucket of its priority.
record IsPlain (e : Entry) (p q : ℤ) (h : Handler) : Type 0 where
  bucket : q ≡ p
  named : h.name ≡ e.name
  unbound : h.between_handlers ≡ none

module _ (r : Registry) (e : Entry) (p : ℤ) (free : e.between_handlers ≡ none)
    (given : e.priority ≡ some (finite p)) where
  placed_plain : place r e ≡ ok (p, some p, none)
  unfolding place
  placed_plain = rw (place, free, given) refl

  validate-IsPlain :
      (exist_ok : Bool) (q : ℤ) (h : Handler) → validate r e exist_ok ≡ ok (q, h) → IsPlain e p q h
  unfolding validate
  validate-IsPlain exist_ok q h v =
      let (_, hc, v1) = >>=-eq-ok (check_entry r e exist_ok) _ v in
      let (subscriptions, hs, v2) = >>=-eq-ok (normalise_patterns e.subscribe) _ v1 in
      let (filters, hf, v3) = >>=-eq-ok (normalise_filters e.filter_event) _ v2 in
      let (placed, hp, v4) = >>=-eq-ok (place r e) _ v3 in
      let same : (p, some p, none) ≡ placed = cc (placed_plain, hp) in
      let made : assembled e subscriptions filters (p, some p, none) ≡ (q, h) = cc (same, v4) in
      subst (λ (x : ℤ × Handler). IsPlain e p x.0 x.1) made
        (record { bucket = refl; named = refl; unbound = refl })

  module _ (fresh : get e.name r.registry ≡ none) where
    stored_plain :
        (q : ℤ) (h : Handler)
        → h.between_handlers ≡ none
        → (insert_handler r q h).0.priority_buckets ≡ appended q h.name r.priority_buckets
    unfolding insert_handler insertion_index invalidate_matching_chains
    stored_plain q h unbound = rw (insert_handler, unbound, insertion_index) refl

    commit_plain :
        (exist_ok : Bool) (v : Result (ℤ × Handler))
        → validate r e exist_ok ≡ v
        → (commit r v).1 ≡ ok tt
        → (commit r v).0.priority_buckets ≡ appended p e.name r.priority_buckets
    commit_plain exist_ok (raise x) valid done = cc done
    commit_plain exist_ok (ok (q, h)) valid done =
        let plain = validate-IsPlain exist_ok q h valid in
        ap (λ n. (insert_handler (unregister_handler r n true).0 q h).0.priority_buckets)
          plain.named
        ∙ ap (λ s. (insert_handler s q h).0.priority_buckets) (unregister_fresh r e.name fresh)
        ∙ stored_plain q h plain.unbound
        ∙ ap (λ n. appended q n r.priority_buckets) plain.named
        ∙ ap (λ k. appended k e.name r.priority_buckets) plain.bucket

    -- A successful registration of a new name at a priority appends it to the bucket of that priority.
    pub register_handler-appended :
        (exist_ok : Bool)
        → (register_handler r e exist_ok).1 ≡ ok tt
        → (register_handler r e exist_ok).0.priority_buckets ≡ appended p e.name r.priority_buckets
    unfolding register_handler
    register_handler-appended exist_ok done =
        commit_plain exist_ok (validate r e exist_ok) refl done

pub active_handler_names-order : (r : Registry) → active_handler_names r ≡ order r.priority_buckets
unfolding active_handler_names
active_handler_names-order r = refl
