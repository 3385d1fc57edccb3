-- ===== src/Graph/Commands/Targets/Batches.antt =====
-- The targets that `NodeGraph.apply_command` (source/apixis/core/graph/node_graph.py) gathers from
-- whole batches.
use apixis.Base.{
  String, Bool, true, false, ◌||◌, List, [], ◌∷◌, ◌++◌, append_assoc, Option, none, some, Result,
  ok, raise, value_error, ◌==◌, string_eq, if◌then◌else◌, if_cases, Bool-cases, inl, inr, ap, ◌∙◌,
  sym, dedup, ◌≡◌, refl, arith,
}
use apixis.Base.Dict.{get}
use apixis.Graph.State.{State, Policies, copy_state}
use apixis.Graph.Command.{
  Command, Update, plain, reset, Mapping, dict, mapping, not_mapping, Goto, nowhere, not_goto, to,
  to_all, end_name,
}
use apixis.Graph.Commands.{
  Progress, Target, is_auto_merge, Added, no_method, not_implemented, sum, raises, start, continue,
  for_each, is_conflict, noted, store, merge, merge_into, apply_field, apply_update, apply_goto,
  apply_one, apply_node, apply_groups, apply_batch, copied, targeted, add_targets, add_target,
  next_target,
}
use apixis.Graph.Commands.Targets.{
  nodes_of, is_batch, named, has_batch, all_commands, shape, add_keys, add_keys-append,
  add_keys-dedup, ok_injective, shape_lem,
}

module _ {A : Type 0} where
  next_target_lem : (p : Progress A) → next_target p ≡ shape p.concurrent p.next_targets
  unfolding next_target
  next_target_lem p = shape_lem p.concurrent p.next_targets

  -- Where a run from `pr` ends well, it has added the names, and made a batch if `several`.
  Gains : List String → Bool → Progress A → Progress A × Result (Unit {0}) → Type 0
  Gains names several pr (p, ok tt) =
      (p.next_targets ≡ add_keys names pr.next_targets)
      × (p.concurrent ≡ (pr.concurrent || several))
  Gains names several pr (p, raise e) = Unit

  Gains-then :
      (xs ys : List String) (b c : Bool) (pr p : Progress A) (r : Progress A × Result (Unit {0}))
      → Gains xs b pr (p, ok tt)
      → Gains ys c p r
      → Gains (xs ++ ys) (b || c) pr r
  unfolding Gains
  Gains-then xs ys b c pr p (q, raise e) h k = tt
  Gains-then xs ys b c pr p (q, ok tt) h k = (
    k.0 ∙ ap (add_keys ys) h.0 ∙ sym (add_keys-append xs ys pr.next_targets),
    ground (arith, k.1, h.1),
  )

  Gains-continue :
      (xs ys : List String) (b c : Bool) (pr : Progress A) (r : Progress A × Result (Unit {0}))
      (f : Progress A → Progress A × Result (Unit {0}))
      → Gains xs b pr r
      → ((p : Progress A) → Gains ys c p (f p))
      → Gains (xs ++ ys) (b || c) pr (continue r f)
  unfolding Gains Gains-then
  Gains-continue xs ys b c pr (p, raise e) f h k = tt
  Gains-continue xs ys b c pr (p, ok tt) f h k = Gains-then xs ys b c pr p (f p) h (k p)

  Gains-refl : (pr : Progress A) → Gains [] false pr (pr, ok tt)
  unfolding Gains
  Gains-refl pr = (refl, ground arith)

  add_targets-Gains :
      (names : List String) (pr : Progress A)
      → Gains (nodes_of (to_all names)) (is_batch (to_all names)) pr (add_targets names pr, ok tt)
  unfolding Gains Gains-refl Gains-then
  add_targets-Gains [] pr = Gains-refl pr
  add_targets-Gains (name ∷ names) pr = elim (Bool-cases (name == end_name)) [
    | inl last ↦ rw (add_targets, last) (add_targets-Gains names pr)
    | inr more ↦
        rw (add_targets, more)
          (Gains-then (name ∷ []) (nodes_of (to_all names)) true (is_batch (to_all names)) pr
            (record (add_target name pr) { concurrent = true })
            (add_targets names (record (add_target name pr) { concurrent = true }), ok tt)
            (refl, ground arith)
            (add_targets-Gains names (record (add_target name pr) { concurrent = true })))
  ]

  apply_goto-Gains :
      (g : Goto) (pr : Progress A) → Gains (nodes_of g) (is_batch g) pr (apply_goto g pr)
  unfolding Gains apply_goto Gains-refl add_targets-Gains
  apply_goto-Gains nowhere pr = Gains-refl pr
  apply_goto-Gains not_goto pr = tt
  apply_goto-Gains (to name) pr = elim (Bool-cases (name == end_name)) [
    | inl last ↦ rw (last) (Gains-refl pr)
    | inr more ↦ rw (more) (refl, ground arith)
  ]
  apply_goto-Gains (to_all names) pr = add_targets-Gains names pr

  module _ {X : Type 0} (body : Progress A → X → Progress A × Result (Unit {0})) where
    none-Gains :
        ((pr : Progress A) (x : X) → Gains [] false pr (body pr x))
        → (xs : List X) (pr : Progress A) → Gains [] false pr (for_each body xs pr)
    unfolding for_each
    none-Gains step [] pr = Gains-refl pr
    none-Gains step (x ∷ xs) pr =
        Gains-continue [] [] false false pr (body pr x) (for_each body xs) (step pr x)
          (none-Gains step xs)

  module _ (add : A → A → Added A) (deepcopy : A → A) (policies : Policies) where
    store-Gains :
        (k : String) (u : Update A) (pr : Progress A)
        → Gains [] false pr (store add deepcopy policies k u pr)
    unfolding store Gains
    store-Gains k (reset v) pr = Gains-refl pr
    store-Gains k (plain v) pr = into (if is_auto_merge policies k then get k pr.state else none)
      where
        merged : (a : Added A) → Gains [] false pr (merge add deepcopy policies k a pr)
        merged no_method = tt
        merged (raises e) = tt
        merged not_implemented = tt
        merged (sum w) = (refl, ground arith)

        into : (o : Option A) → Gains [] false pr (merge_into add deepcopy policies k o v pr)
        into none = (refl, ground arith)
        into (some w) = merged (add w v)

    apply_field-Gains :
        (pr : Progress A) (f : String × Update A)
        → Gains [] false pr (apply_field add deepcopy policies pr f)
    unfolding apply_field Gains
    apply_field-Gains pr (k, u) =
        if_cases (Gains [] false pr) (is_conflict policies k pr) (pr, raise value_error)
          (store add deepcopy policies k u (noted policies k pr)) (λ clash. tt)
          (λ free.
            Gains-then [] [] false false pr (noted policies k pr)
              (store add deepcopy policies k u (noted policies k pr))
              (if_cases (λ q. Gains [] false pr (q, ok tt)) (is_auto_merge policies k) pr _
                (λ auto. Gains-refl pr) (λ normal. (refl, ground arith)))
              (store-Gains k u (noted policies k pr)))

    apply_update-Gains :
        (u : Mapping A) (pr : Progress A)
        → Gains [] false pr (apply_update add deepcopy policies u pr)
    unfolding apply_update Gains
    apply_update-Gains (dict u) pr =
        none-Gains (apply_field add deepcopy policies) apply_field-Gains
          (copy_state (copied add deepcopy policies) u policies.keep_ref_keys) pr
    apply_update-Gains (mapping u) pr = tt
    apply_update-Gains not_mapping pr = tt

    apply_one-Gains :
        (pr : Progress A) (c : Command A)
        → Gains (nodes_of c.goto) (is_batch c.goto) pr (apply_one add deepcopy policies pr c)
    unfolding apply_one
    apply_one-Gains pr c =
        Gains-continue [] (nodes_of c.goto) false (is_batch c.goto) pr
          (apply_update add deepcopy policies c.update pr) (apply_goto c.goto)
          (apply_update-Gains c.update pr) (apply_goto-Gains c.goto)

    commands-Gains :
        (cs : List (Command A)) (pr : Progress A)
        → Gains (named cs) (has_batch cs) pr (for_each (apply_one add deepcopy policies) cs pr)
    unfolding for_each
    commands-Gains [] pr = Gains-refl pr
    commands-Gains (c ∷ cs) pr =
        Gains-continue (nodes_of c.goto) (named cs) (is_batch c.goto) (has_batch cs) pr
          (apply_one add deepcopy policies pr c) (for_each (apply_one add deepcopy policies) cs)
          (apply_one-Gains pr c) (commands-Gains cs)

    named-append : (cs ds : List (Command A)) → named (cs ++ ds) ≡ named cs ++ named ds
    named-append [] ds = refl
    named-append (c ∷ cs) ds =
        ap (λ l. nodes_of c.goto ++ l) (named-append cs ds)
        ∙ sym (append_assoc (nodes_of c.goto) (named cs) (named ds))

    has_batch-append :
        (cs ds : List (Command A)) → has_batch (cs ++ ds) ≡ (has_batch cs || has_batch ds)
    has_batch-append [] ds = refl
    has_batch-append (c ∷ cs) ds = ground (arith, has_batch-append cs ds)

    node-Gains :
        (pr : Progress A) (cs : List (Command A))
        → Gains (named cs) (has_batch cs) pr (apply_node add deepcopy policies pr cs)
    unfolding apply_node Gains
    node-Gains pr cs =
        same
          (for_each (apply_one add deepcopy policies) cs
            (record pr { current_node_normal_keys = [] }))
          (commands-Gains cs (record pr { current_node_normal_keys = [] }))
      where
        same :
            (r : Progress A × Result (Unit {0}))
            → Gains (named cs) (has_batch cs) (record pr { current_node_normal_keys = [] }) r
            → Gains (named cs) (has_batch cs) pr r
        same (p, ok tt) h = h
        same (p, raise e) h = tt

    groups-Gains :
        (groups : List (List (Command A))) (pr : Progress A)
        → Gains
            (named (all_commands groups))
            (has_batch (all_commands groups))
            pr
            (for_each (apply_node add deepcopy policies) groups pr)
    unfolding for_each
    groups-Gains [] pr = Gains-refl pr
    groups-Gains (cs ∷ groups) pr =
        rw (named-append cs (all_commands groups), has_batch-append cs (all_commands groups))
          (Gains-continue (named cs) (named (all_commands groups)) (has_batch cs)
            (has_batch (all_commands groups)) pr (apply_node add deepcopy policies pr cs)
            (for_each (apply_node add deepcopy policies) groups) (node-Gains pr cs)
            (groups-Gains groups))

    -- A batch of commands that is applied to the end goes on with the nodes that the commands name,
    -- in the order of their first naming, each once and without `END`: with the end if there is
    -- none, as a batch if a command names a node in a list or two nodes are named, and else with the
    -- one node.
    pub apply_batch-shape :
        (s s' : State A) (groups : List (List (Command A))) (t : Target)
        → apply_batch add deepcopy policies s groups ≡ (s', ok t)
        → t ≡ shape (has_batch (all_commands groups)) (dedup (named (all_commands groups)))
    unfolding apply_batch apply_groups Gains
    apply_batch-shape s s' groups t =
        result (for_each (apply_node add deepcopy policies) groups (start s))
          (groups-Gains groups (start s))
      where
        result :
            (r : Progress A × Result (Unit {0}))
            → Gains (named (all_commands groups)) (has_batch (all_commands groups)) (start s) r
            → targeted add deepcopy policies r ≡ (s', ok t)
            → t ≡ shape (has_batch (all_commands groups)) (dedup (named (all_commands groups)))
        result (p, raise e) h k = cc k
        result (p, ok tt) h k =
            sym (ok_injective (ap (λ r. r.1) k))
            ∙ next_target_lem p
            ∙ ap (λ b. shape b p.next_targets) h.1
            ∙ ap (shape (has_batch (all_commands groups)))
                (h.0 ∙ add_keys-dedup (named (all_commands groups)))
