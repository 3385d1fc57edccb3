-- ===== src/Event/Registry/Undo.antt =====
-- A registration that is followed by its removal (source/apixis/core/event/handler_registry.py).
use apixis.Base.{
  ℕ, String, Bool, true, false, ◌≡◌, refl, ap, ◌∙◌, sym, subst, Option, none, some, Result, ok,
  raise, arith, string_eq, eq_self, Error,
}
use apixis.Base.Int.{ℤ, int_eq}
use apixis.Base.Dict.{get, del, get-put, get-del}
use apixis.Event.Registry.{
  Registry, Handler, bucket_of, accepts, resolve, remove_from_bucket, invalidate_matching_chains,
  unregister_handler, insert_handler, insertion_index, insert_name,
}
use apixis.Event.Registry.Buckets.{chain_of, chain_of-set_bucket, select-insert_name}
use apixis.Event.Registry.Chains.{
  IsCoherent, rest-remove_from_bucket, resolve-eq-chain_of, chain_of_congr,
  chain_of-remove_from_bucket,
}
use apixis.Event.Registry.Coherence.{inserted, entry, inserted-IsCoherent, put-insert_name}
use apixis.Event.Registry.Validate.{Entry, validate}
use apixis.Event.Registry.Validate.Sound.{validate-IsReady}
use apixis.Event.Registry.Append.{unregister_fresh}
use apixis.Event.Registry.Register.{register_handler, commit}

module _ (r : Registry) (p : ℤ) (h : Handler) (c : IsCoherent r) (i : Option ℕ)
    (fresh : get h.name r.registry ≡ none) where
  abbrev with_handler : Registry
  with_handler = inserted r p h c i fresh

  found : get h.name with_handler.registry ≡ some (entry r p h c i fresh)
  found = get-put h.name h.name (entry r p h c i fresh) r.registry ∙ simp (eq_self h.name)

  abbrev invalidated : Registry
  invalidated = invalidate_matching_chains (entry r p h c i fresh) with_handler

  abbrev freed : Registry
  freed =
      let s =
        remove_from_bucket h.name
          (invalidate_matching_chains (entry r p h c i fresh) with_handler) in
      record s { registry = del h.name s.registry }

  unregister_eq : (unregister_handler with_handler h.name true).0 ≡ freed
  unfolding unregister_handler
  unregister_eq = rw (unregister_handler, found) refl

  accepts-freed : (ev n : String) → accepts freed ev n ≡ accepts r ev n
  unfolding invalidate_matching_chains
  accepts-freed ev n =
      rw
        (
          (rest-remove_from_bucket invalidated h.name).0,
          accepts,
          get-del h.name n with_handler.registry,
          get-put h.name n (entry r p h c i fresh) r.registry,
        )
        (ground (arith, fresh, string_eq.beq_iff h.name n))

  resolve-freed : (ev : String) → resolve freed ev ≡ resolve r ev
  unfolding invalidate_matching_chains
  resolve-freed ev =
      let off : accepts r ev h.name ≡ false = rw (accepts, fresh) refl in
      resolve-eq-chain_of freed ev
      ∙ chain_of_congr (accepts freed ev) (accepts r ev) freed.priority_buckets (accepts-freed ev)
      ∙ chain_of-remove_from_bucket (accepts r ev) invalidated h.name
          (inserted-IsCoherent r p h c i fresh).unique_priorities off
      ∙ ap (chain_of (accepts r ev)) (sym (put-insert_name p h.name i r.priority_buckets))
      ∙ chain_of-set_bucket (accepts r ev) p (insert_name i h.name (bucket_of p r.priority_buckets))
          r.priority_buckets
          (select-insert_name (accepts r ev) h.name i (bucket_of p r.priority_buckets) off)
      ∙ sym (resolve-eq-chain_of r ev)

module _ (r : Registry) (c : IsCoherent r) (ev : String) where
  abbrev Undone : Registry → String → Type 0
  Undone s name = resolve (unregister_handler s name true).0 ev ≡ resolve r ev

  insert_raises :
      (p : ℤ) (h : Handler) (x : Error)
      → insertion_index h.between_handlers (bucket_of p r.priority_buckets) ≡ raise x
      → (insert_handler r p h).1 ≡ raise x
  unfolding insert_handler
  insert_raises p h x e = rw (insert_handler, e) refl

  insert-Undone :
      (p : ℤ) (h : Handler) (o : Result (Option ℕ))
      → get h.name r.registry ≡ none
      → insertion_index h.between_handlers (bucket_of p r.priority_buckets) ≡ o
      → (insert_handler r p h).1 ≡ ok tt
      → Undone (insert_handler r p h).0 h.name
  unfolding insert_handler invalidate_matching_chains
  insert-Undone p h (raise x) fresh e done = absurd (cc (insert_raises p h x e, done))
  insert-Undone p h (ok i) fresh e done =
      rw (insert_handler, e)
        (ap (λ s. resolve s ev) (unregister_eq r p h c i fresh) ∙ resolve-freed r p h c i fresh ev)

  commit-Undone :
      (e : Entry) (exist_ok : Bool) (v : Result (ℤ × Handler))
      → get e.name r.registry ≡ none
      → validate r e exist_ok ≡ v
      → (commit r v).1 ≡ ok tt
      → Undone (commit r v).0 e.name
  commit-Undone e exist_ok (raise x) fresh valid done = cc done
  commit-Undone e exist_ok (ok (p, h)) fresh valid done =
      let named = (validate-IsReady r e p h c.unique_priorities exist_ok valid).named in
      let fresh' : get h.name r.registry ≡ none = ap (λ n. get n r.registry) named ∙ fresh in
      let same = unregister_fresh r h.name fresh' in
      subst (Undone (commit r (ok (p, h))).0) named (
        subst (λ s. Undone (insert_handler s p h).0 h.name) (sym same)
          (insert-Undone p h (insertion_index h.between_handlers (bucket_of p r.priority_buckets))
            fresh' refl (ap (λ s. (insert_handler s p h).1) (sym same) ∙ done)))

  -- A handler under a new name, registered with success on a coherent registry and then unregistered,
  -- leaves the resolution of every event as it was before.
  pub unregister-register_handler :
      (e : Entry) (exist_ok : Bool)
      → get e.name r.registry ≡ none
      → (register_handler r e exist_ok).1 ≡ ok tt
      → resolve (unregister_handler (register_handler r e exist_ok).0 e.name true).0 ev
        ≡ resolve r ev
  unfolding register_handler
  unregister-register_handler e exist_ok fresh done =
      commit-Undone e exist_ok (validate r e exist_ok) fresh refl done
