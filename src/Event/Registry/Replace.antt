-- ===== src/Event/Registry/Replace.antt =====
-- `register_handler` and `unregister_handler` of source/apixis/core/event/handler_registry.py as
-- whole operations.
use apixis.Base.{
  ℕ, ◌+◌, String, Bool, true, false, ◌≡◌, refl, ◌∙◌, List, Option, none, some, inl, inr, arith,
  Result, ok, raise, Error, ◌==◌, string_eq, contains, index_of, is_some-index_of, Option-cases,
  eq_self,
}
use apixis.Base.Int.{ℤ}
use apixis.Base.Dict.{get, get-del}
use apixis.Event.Registry.{
  Registry, Handler, Boundaries, bucket_of, remove_from_bucket, invalidate_matching_chains,
  unregister_handler, insert_handler, insertion_index,
}
use apixis.Event.Registry.Positions.{HasUniquePriorities, contains-remove_from_bucket}
use apixis.Event.Registry.Chains.{IsCoherent}
use apixis.Event.Registry.Coherence.{inserted-IsCoherent, unregister_handler-IsCoherent}
use apixis.Event.Registry.Validate.{Entry, validate}
use apixis.Event.Registry.Validate.Sound.{IsPlaceable, validate-IsReady}
use apixis.Event.Registry.Register.{register_handler, commit}

-- The outcome of a computation without its value.
abbrev pub forget {ℓ} : {A : Type ℓ} → Result A → Result (Unit {0})
forget (ok a) = ok tt
forget (raise x) = raise x

-- The name is unknown after its removal, whatever the registry was.
get-unregister_handler :
    (r : Registry) (name : String) → get name (unregister_handler r name true).0.registry ≡ none
unfolding unregister_handler
get-unregister_handler r name = elim (Option-cases (get name r.registry)) [
  | inl absent ↦ rw (absent, unregister_handler) absent
  | inr (h, found) ↦
      rw
        (
          found,
          unregister_handler,
          get-del name name (remove_from_bucket name (invalidate_matching_chains h r)).registry,
          eq_self name,
        )
        refl
]

contains-unregister_handler :
    (r : Registry) (name other : String) (p : ℤ)
    → HasUniquePriorities r
    → (name == other) ≡ false
    → contains other (bucket_of p (unregister_handler r name true).0.priority_buckets)
      ≡ contains other (bucket_of p r.priority_buckets)
unfolding unregister_handler invalidate_matching_chains
contains-unregister_handler r name other p u ne = elim (Option-cases (get name r.registry)) [
  | inl absent ↦ rw (absent, unregister_handler) refl
  | inr (h, found) ↦
      rw (found, unregister_handler)
        (contains-remove_from_bucket (invalidate_matching_chains h r) name other p u ne)
]

index_of-some :
    (a : String) (xs : List String) → contains a xs ≡ true → (i : ℕ) × (index_of a xs ≡ some i)
index_of-some a xs h = elim (Option-cases (index_of a xs)) [
  | inl miss ↦ absurd (ground (arith, is_some-index_of a xs))
  | inr hit ↦ hit
]

-- The decisive boundary of a placeable handler is found in its bucket.
module _ (r : Registry) (p : ℤ) (name : String) (bucket : List String)
    (keep : (other : String)
      → contains other (bucket_of p r.priority_buckets) ≡ true
      → (name == other) ≡ false
      → contains other bucket ≡ true) where
  index-at_boundaries :
      (l t : Option String)
      → IsPlaceable r p name (some (record { left = l; right = t }))
      → (i : Option ℕ) × (insertion_index (some (record { left = l; right = t })) bucket ≡ ok i)
  unfolding insertion_index
  index-at_boundaries l (some t) h =
      let (i, found) = index_of-some t bucket (keep t h.0 h.1) in
      (some i, rw (insertion_index, found))
  index-at_boundaries (some l) none h =
      let (i, found) = index_of-some l bucket (keep l h.0 h.1) in
      (some (i + 1), rw (insertion_index, found))
  index-at_boundaries none none h = absurd h

  insertion_index-total :
      (o : Option Boundaries)
      → IsPlaceable r p name o
      → (i : Option ℕ) × (insertion_index o bucket ≡ ok i)
  unfolding insertion_index
  insertion_index-total none h = (none, refl)
  insertion_index-total (some b) h = index-at_boundaries b.left b.right h

-- Storing a placeable handler under an unknown name succeeds and keeps the registry coherent.
pub insert_handler_fresh :
    (r : Registry) (p : ℤ) (h : Handler) (i : Option ℕ)
    → IsCoherent r
    → get h.name r.registry ≡ none
    → insertion_index h.between_handlers (bucket_of p r.priority_buckets) ≡ ok i
    → ((insert_handler r p h).1 ≡ ok tt) × IsCoherent (insert_handler r p h).0
unfolding insert_handler invalidate_matching_chains
insert_handler_fresh r p h i c fresh e =
    rw (e, insert_handler) (refl, inserted-IsCoherent r p h c i fresh)

commit_ready :
    (r : Registry) (p : ℤ) (h : Handler)
    → IsCoherent r
    → IsPlaceable r p h.name h.between_handlers
    → ((commit r (ok (p, h))).1 ≡ ok tt) × IsCoherent (commit r (ok (p, h))).0
commit_ready r p h c ready =
    let (i, e) =
      insertion_index-total r p h.name
        (bucket_of p (unregister_handler r h.name true).0.priority_buckets)
        (λ other held ne.
          contains-unregister_handler r h.name other p c.unique_priorities ne ∙ held)
        h.between_handlers ready in
    insert_handler_fresh (unregister_handler r h.name true).0 p h i
      (unregister_handler-IsCoherent r h.name true c) (get-unregister_handler r h.name) e

module _ (r : Registry) (e : Entry) (exist_ok : Bool) (c : IsCoherent r) where
  commit-cases :
      (v : Result (ℤ × Handler))
      → validate r e exist_ok ≡ v
      → IsCoherent (commit r v).0 × ((commit r v).1 ≡ forget v)
  commit-cases (raise x) h = (c, refl)
  commit-cases (ok (p, h)) valid =
      let ready = validate-IsReady r e p h c.unique_priorities exist_ok valid in
      let (done, after) = commit_ready r p h c ready.placeable in (after, done)

  -- On a coherent registry a registration has exactly the outcome of its validation: no later step
  -- raises, and no error of the validation is lost. The registry that it leaves is coherent.
  pub register_handler_lem :
      IsCoherent (register_handler r e exist_ok).0
      × ((register_handler r e exist_ok).1 ≡ forget (validate r e exist_ok))
  unfolding register_handler
  register_handler_lem = commit-cases (validate r e exist_ok) refl

  commit_atomic :
      (v : Result (ℤ × Handler)) (x : Error)
      → validate r e exist_ok ≡ v
      → (commit r v).1 ≡ raise x
      → (commit r v).0 ≡ r
  commit_atomic (raise y) x valid h = refl
  commit_atomic (ok (p, h)) x valid failed =
      absurd (cc ((commit-cases (ok (p, h)) valid).1, failed))

  -- On a coherent registry a registration that raises leaves the registry as it was, also where it
  -- was to replace a handler.
  pub register_handler_atomic :
      (x : Error)
      → (register_handler r e exist_ok).1 ≡ raise x
      → (register_handler r e exist_ok).0 ≡ r
  unfolding register_handler
  register_handler_atomic x h = commit_atomic (validate r e exist_ok) x refl h
