-- ===== src/Graph/Runtime/Managed/Steps.antt =====
-- The set of running contexts of a graph, step by step (source/apixis/core/graph/node_graph.py).
use apixis.Base.{
  ℕ, String, true, false, List, [], ◌∷◌, ◌++◌, none, some, is_some, contains, without,
  contains-without, contains-append, IsUnique, IsUnique-without, IsUnique-snoc, nat_eq, eq_true,
  eq_self, ◌==◌, string_eq, Bool-cases, ◌≡◌, refl, sym, ap, subst, arith, ◌⊎◌, inl, inr, ◌∙◌,
  if◌then◌else◌,
}
use apixis.Base.Dict.{get, put, get-put}
use apixis.Graph.Context.{World, is_running, pending, running}
use apixis.Graph.Context.Life.{view, perform, Operation}
use apixis.Graph.Runtime.{Runtime, write_back, add_context}
use apixis.Graph.Runtime.Managed.{Store, Attempt, Tracked, IsManaged, Managed, IsAfterStart}
use apixis.Graph.Runtime.Managed.Follows.{
  Follows, Tracked-set, without_self, perform-Follows, perform-graph_id,
}

-- A write of the context `i`, with the set as it is then.
module _ {A : Type 0} (own : String) (ids ids' : List ℕ) (store : Store A) (i : ℕ) (d : Attempt A)
    (m : IsManaged own ids store) (unique' : IsUnique ids')
    (other : (j : ℕ) → (i == j) ≡ false → contains j ids' ≡ contains j ids)
    (tracked' : Tracked i (view (d, ids')))
    (owned' : is_running d.status ≡ true → d.graph_id ≡ own) where
  present_after : (j : ℕ) → contains j ids' ≡ true → is_some (get j (put i d store)) ≡ true
  present_after j h = rw (get-put i j d store) (elim (Bool-cases (i == j)) [
    | inl e ↦ rw e refl
    | inr e ↦ rw e (m.present j (sym (other j e) ∙ h))
  ])

  abbrev AfterAt : ℕ → Attempt A → Type 0
  AfterAt j x = Tracked j (view (x, ids')) × (is_running x.status ≡ true → x.graph_id ≡ own)

  at_i : (j : ℕ) (x : Attempt A) → i ≡ j → get j (put i d store) ≡ some x → AfterAt j x
  at_i j x e h = rw (sym e, read) (tracked', owned')
    where
      read : x ≡ d
      read = ground (arith, get-put i j d store, eq_self i)

  after : (j : ℕ) (x : Attempt A) → get j (put i d store) ≡ some x → AfterAt j x
  after j x h = elim (Bool-cases (i == j)) [
    | inl e ↦ at_i j x (eq_true i j e) h
    | inr e ↦
        let old = sym (get-put i j d store ∙ ap (λ b. if b then some d else get j store) e) ∙ h in
        (Tracked-set j x ids ids' (other j e) (m.tracked j x old), m.owned j x old)
  ]

  pub put-IsManaged : IsManaged own ids' (put i d store)
  put-IsManaged = record {
    unique = unique';
    present = present_after;
    tracked = λ j x h. (after j x h).0;
    owned = λ j x h. (after j x h).1;
  }

module _ {A : Type 0} (own : String) (ids : List ℕ) (store : Store A) (i : ℕ)
    (m : IsManaged own ids store) where
  -- A stored context changes, and its number leaves the set at most.
  pub change-IsManaged :
      (c d : Attempt A) (ids' : List ℕ)
      → get i store ≡ some c
      → Follows i (view (c, ids)) (view (d, ids'))
      → d.graph_id ≡ c.graph_id
      → IsManaged own ids' (put i d store)
  change-IsManaged c d ids' at (t, inl e) same =
      put-IsManaged own ids ids' store i d m (rw e m.unique) (λ j h. ap (contains j) e) t
        (λ r.
          same ∙ m.owned i c at (sym ((m.tracked i c at).1) ∙ sym (ap (contains i) e) ∙ t.1 ∙ r))
  change-IsManaged c d ids' at (t, inr e) same =
      put-IsManaged own ids ids' store i d m (rw e (IsUnique-without i ids m.unique))
        (λ j h.
          ap (contains j) e
          ∙ contains-without j i ids
          ∙ ap (λ b. if b then false else contains j ids) h)
        t (λ r. absurd (cc (sym (ap (contains i) e) ∙ t.1 ∙ r, without_self i ids)))

  -- A context starts.
  pub start-IsManaged :
      (d : Attempt A)
      → contains i ids ≡ false
      → d.status ≡ running
      → is_some d.completion ≡ true
      → d.on_terminal ≡ some (without i)
      → d.graph_id ≡ own
      → IsManaged own (add_context i ids) (put i d store)
  start-IsManaged d new r k f g = rw new (
      put-IsManaged own ids (ids ++ i ∷ []) store i d m (IsUnique-snoc i ids new m.unique)
        (λ j h. contains-append j ids (i ∷ []) ∙ ground (arith, h))
        (subst (λ s. Tracked i (s, d.completion, d.on_terminal, ids ++ i ∷ [])) (sym r)
          (k, contains-append i ids (i ∷ []) ∙ ground (arith, eq_self i), λ x. f))
        (λ x. g))

  -- A pending context is new.
  pub new-IsManaged :
      (d : Attempt A)
      → get i store ≡ none
      → d.status ≡ pending
      → d.completion ≡ none
      → d.on_terminal ≡ none
      → IsManaged own ids (put i d store)
  new-IsManaged d at r k f =
      put-IsManaged own ids ids store i d m m.unique (λ j h. refl)
        (subst (λ s. Tracked i (s, d.completion, d.on_terminal, ids)) (sym r)
          ((k, f), absent (Bool-cases (contains i ids)), λ x. cc x))
        (λ x. cc (x, r))
    where
      absent : (contains i ids ≡ true) ⊎ (contains i ids ≡ false) → contains i ids ≡ false
      absent (inl h) = cc (at, m.present i h)
      absent (inr h) = h

module _ {A : Type 0} (deepcopy : A → A) where
  -- An operation on a stored context.
  pub operate-Managed :
      (op : Operation A (List ℕ)) (i : ℕ) (c : Attempt A) (rt : Runtime A)
      → IsAfterStart op
      → get i rt.store ≡ some c
      → Managed rt
      → Managed (write_back i rt (perform deepcopy op (c, rt.graph.contexts)))
  unfolding Managed
  operate-Managed op i c rt a at m =
      change-IsManaged rt.graph.graph_id rt.graph.contexts rt.store i m c (after.0) (after.1) at
        (perform-Follows i deepcopy op (c, rt.graph.contexts) a (m.tracked i c at))
        (perform-graph_id deepcopy op (c, rt.graph.contexts))
    where
      after : World A (List ℕ)
      after = perform deepcopy op (c, rt.graph.contexts)
