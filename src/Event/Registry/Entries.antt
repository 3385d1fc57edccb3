-- ===== src/Event/Registry/Entries.antt =====
-- The handlers by name when one is unregistered (source/apixis/core/event/handler_registry.py).
use apixis.Base.{
  String, Bool, true, false, none, Option-cases, inl, inr, ◌==◌, string_eq, eq_true, if◌then◌else◌,
  ◌≡◌, refl, sym, ap, ◌∙◌,
}
use apixis.Base.Dict.{get, get-del}
use apixis.Event.Registry.{
  Registry, position, remove_from_bucket, invalidate_matching_chains, unregister_handler,
}

registry-remove_from_bucket :
    (name : String) (r : Registry) → (remove_from_bucket name r).registry ≡ r.registry
unfolding remove_from_bucket
registry-remove_from_bucket name r = elim (Option-cases (position r name)) [
  | inl e ↦ rw (e, remove_from_bucket) refl
  | inr (at, e) ↦ rw (e, remove_from_bucket) refl
]

-- The one name is unknown, every other one has its handler.
pub registry-unregister_handler :
    (r : Registry) (name other : String)
    → get other (unregister_handler r name true).0.registry
      ≡ (if name == other then none else get other r.registry)
unfolding unregister_handler invalidate_matching_chains
registry-unregister_handler r name other = elim (Option-cases (get name r.registry)) [
  | inl absent ↦ rw (absent, unregister_handler) (unchanged absent (name == other) refl)
  | inr (h, found) ↦
      rw
        (
          found,
          unregister_handler,
          registry-remove_from_bucket name (invalidate_matching_chains h r),
          get-del name other r.registry,
        )
        refl
]
  where
    unchanged :
        get name r.registry ≡ none
        → (b : Bool) → (name == other) ≡ b
        → get other r.registry ≡ (if b then none else get other r.registry)
    unchanged absent true e = ap (λ k. get k r.registry) (sym (eq_true name other e)) ∙ absent
    unchanged absent false e = refl
