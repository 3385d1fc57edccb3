-- ===== src/Graph/Commands/Conflicts/Batches.antt =====
-- The conflict test of `NodeGraph.apply_command` (source/apixis/core/graph/node_graph.py) on whole
-- batches.
use apixis.Base.{
  String, true, false, not, List, [], ◌∷◌, ◌++◌, Option, none, some, Result, ok, raise, value_error,
  ◌==◌, string_eq, if_cases, append-nil, Bool-cases, inl, inr, ap, subst, ◌∙◌, contains,
  contains-append, select, ◌≡◌, refl, arith,
}
use apixis.Base.Dict.{Dict, keys}
use apixis.Graph.State.{State, Policies, copy_state, copy_state_lem}
use apixis.Graph.Command.{
  Command, Update, plain, reset, Mapping, dict, mapping, not_mapping, Goto, nowhere, not_goto, to,
  to_all, end_name,
}
use apixis.Graph.Commands.{
  Progress, is_auto_merge, Added, no_method, not_implemented, sum, raises, start, continue,
  for_each, is_conflict, noted, store, merge, merge_into, apply_field, apply_update, apply_goto,
  apply_one, apply_node, apply_groups, apply_batch, copied, targeted, add_targets, add_target,
}
use apixis.Graph.Commands.Conflicts.{
  normal_keys, node_keys, has_conflict, gathered, IsTracked, Marks, raised-Marks, Marks-continue,
  Marks-for_each, Conflicts, Outcome, raised-Outcome,
}

module _ {A : Type 0} (add : A → A → Added A)
    (no_value_error : (x y : A) → ¬ (add x y ≡ raises value_error)) (deepcopy : A → A)
    (policies : Policies) where
  module _ (seen cur ks : List String) where
    merge-Marks :
        (k : String) (added : Added A) (pr : Progress A)
        → ¬ (added ≡ raises value_error)
        → Marks seen cur ks (pr, ok tt)
        → Marks seen cur ks (merge add deepcopy policies k added pr)
    unfolding Marks
    merge-Marks k (raises x) pr fine h = λ e. absurd (fine (ap raises e))
    merge-Marks k no_method pr fine h = λ e. cc e
    merge-Marks k not_implemented pr fine h = λ e. cc e
    merge-Marks k (sum v) pr fine h = h

    merge_into-Marks :
        (k : String) (current : Option A) (v : A) (pr : Progress A)
        → Marks seen cur ks (pr, ok tt)
        → Marks seen cur ks (merge_into add deepcopy policies k current v pr)
    unfolding Marks
    merge_into-Marks k none v pr h = h
    merge_into-Marks k (some current) v pr h =
        merge-Marks k (add current v) pr (no_value_error current v) h

    store-Marks :
        (k : String) (u : Update A) (pr : Progress A)
        → Marks seen cur ks (pr, ok tt)
        → Marks seen cur ks (store add deepcopy policies k u pr)
    unfolding Marks store
    store-Marks k (reset v) pr h = h
    store-Marks k (plain v) pr h = merge_into-Marks k _ v pr h

  module _ (seen : List String) where
    abbrev field_keys : String × Update A → List String
    field_keys (k, u) = select (λ j. not (is_auto_merge policies j)) (k ∷ [])

    noted-Marks :
        (k : String) (pr : Progress A)
        → IsTracked seen pr
        → is_conflict policies k pr ≡ false
        → Marks seen pr.current_node_normal_keys
            (select (λ j. not (is_auto_merge policies j)) (k ∷ []))
            (noted policies k pr, ok tt)
    unfolding Marks IsTracked
    noted-Marks k pr t free = elim (Bool-cases (is_auto_merge policies k)) [
      | inl auto ↦ rw (auto) (t, λ j. ground arith, refl)
      | inr normal ↦ rw (normal) (
        λ j. (
          ground (arith, (t j).0, string_eq.beq_iff k j),
          ground (arith, (t j).1, (t k).0, (t k).1, string_eq.beq_iff k j),
        ),
        λ j. ground arith,
        ground (arith, (t k).0, (t k).1),
      )
    ]

    apply_field-Marks :
        (pr : Progress A) (f : String × Update A)
        → IsTracked seen pr
        → Marks seen pr.current_node_normal_keys
            (field_keys f)
            (apply_field add deepcopy policies pr f)
    unfolding Marks IsTracked apply_field store
    apply_field-Marks pr (k, u) t =
        if_cases (Marks seen pr.current_node_normal_keys (field_keys (k, u)))
          (is_conflict policies k pr) (pr, raise value_error)
          (store add deepcopy policies k u (noted policies k pr))
          (λ clash e. ground (arith, (t k).0, (t k).1))
          (λ free.
            store-Marks seen pr.current_node_normal_keys (field_keys (k, u)) k u
              (noted policies k pr) (noted-Marks k pr t free))

    gathered_lem :
        (d : Dict String (Update A))
        → gathered field_keys d ≡ select (λ j. not (is_auto_merge policies j)) (keys d)
    gathered_lem [] = refl
    gathered_lem ((k, u) ∷ d) = ground (arith, gathered_lem d)

    copied_keys :
        (u : Dict String (Update A))
        → gathered field_keys (copy_state (copied add deepcopy policies) u policies.keep_ref_keys)
          ≡ normal_keys policies (dict u)
    copied_keys u =
        gathered_lem (copy_state (copied add deepcopy policies) u policies.keep_ref_keys)
        ∙ ap (select (λ j. not (is_auto_merge policies j)))
            (copy_state_lem (copied add deepcopy policies) u policies.keep_ref_keys "").1

    apply_update-Marks :
        (u : Mapping A) (pr : Progress A)
        → IsTracked seen pr
        → Marks seen pr.current_node_normal_keys
            (normal_keys policies u)
            (apply_update add deepcopy policies u pr)
    unfolding apply_update
    apply_update-Marks (dict u) pr t =
        subst
          (λ ks.
            Marks seen pr.current_node_normal_keys ks
              (apply_update add deepcopy policies (dict u) pr))
          (copied_keys u)
          (Marks-for_each seen field_keys (apply_field add deepcopy policies) apply_field-Marks
            (copy_state (copied add deepcopy policies) u policies.keep_ref_keys) pr t)
    apply_update-Marks (mapping u) pr t = raised-Marks seen pr.current_node_normal_keys [] pr
    apply_update-Marks not_mapping pr t = raised-Marks seen pr.current_node_normal_keys [] pr

    add_targets-IsTracked :
        (names : List String) (pr : Progress A)
        → IsTracked seen pr
        → Marks seen pr.current_node_normal_keys [] (add_targets names pr, ok tt)
    unfolding Marks IsTracked
    add_targets-IsTracked [] pr t = (t, λ k. ground arith, refl)
    add_targets-IsTracked (name ∷ names) pr t =
        if_cases (λ q. Marks seen pr.current_node_normal_keys [] (add_targets names q, ok tt))
          (name == end_name) pr (record (add_target name pr) { concurrent = true })
          (λ last. add_targets-IsTracked names pr t)
          (λ more.
            add_targets-IsTracked names (record (add_target name pr) { concurrent = true }) t)

    apply_goto-Marks :
        (g : Goto) (pr : Progress A)
        → IsTracked seen pr
        → Marks seen pr.current_node_normal_keys [] (apply_goto g pr)
    unfolding Marks IsTracked apply_goto
    apply_goto-Marks nowhere pr t = (t, λ k. ground arith, refl)
    apply_goto-Marks not_goto pr t = λ e. cc e
    apply_goto-Marks (to name) pr t = elim (Bool-cases (name == end_name)) [
      | inl last ↦ rw (last) (t, λ k. ground arith, refl)
      | inr more ↦ rw (more) (t, λ k. ground arith, refl)
    ]
    apply_goto-Marks (to_all names) pr t = add_targets-IsTracked names pr t

    apply_one-Marks :
        (pr : Progress A) (c : Command A)
        → IsTracked seen pr
        → Marks seen pr.current_node_normal_keys
            (normal_keys policies c.update)
            (apply_one add deepcopy policies pr c)
    unfolding apply_one
    apply_one-Marks pr c t =
        subst
          (λ ks. Marks seen pr.current_node_normal_keys ks (apply_one add deepcopy policies pr c))
          (append-nil (normal_keys policies c.update))
          (Marks-continue seen pr.current_node_normal_keys (normal_keys policies c.update) []
            (apply_update add deepcopy policies c.update pr) (apply_goto c.goto)
            (apply_update-Marks c.update pr t) (apply_goto-Marks c.goto))

    node_keys_lem :
        (cs : List (Command A))
        → gathered (λ c. normal_keys policies c.update) cs ≡ node_keys policies cs
    node_keys_lem [] = refl
    node_keys_lem (c ∷ cs) = ap (λ ks. normal_keys policies c.update ++ ks) (node_keys_lem cs)

    apply_node-Marks :
        (pr : Progress A) (cs : List (Command A))
        → ((k : String) → contains k pr.updated_normal_keys ≡ contains k seen)
        → Marks seen [] (node_keys policies cs) (apply_node add deepcopy policies pr cs)
    unfolding apply_node IsTracked
    apply_node-Marks pr cs t =
        subst (λ ks. Marks seen [] ks (apply_node add deepcopy policies pr cs)) (node_keys_lem cs)
          (Marks-for_each seen (λ c. normal_keys policies c.update)
            (apply_one add deepcopy policies) apply_one-Marks cs
            (record pr { current_node_normal_keys = [] }) (λ k. (ground (arith, t k), refl)))

  groups-Conflicts :
      (groups : List (List (Command A))) (seen : List String) (pr : Progress A)
      → ((k : String) → contains k pr.updated_normal_keys ≡ contains k seen)
      → Conflicts
          (has_conflict policies seen groups)
          (for_each (apply_node add deepcopy policies) groups pr).1
  unfolding for_each Marks IsTracked
  groups-Conflicts [] seen pr t = refl
  groups-Conflicts (cs ∷ groups) seen pr t =
      rest (apply_node add deepcopy policies pr cs) (apply_node-Marks seen pr cs t)
        (groups-Conflicts groups (node_keys policies cs ++ seen))
    where
      rest :
          (r : Progress A × Result (Unit {0}))
          → Marks seen [] (node_keys policies cs) r
          → ((p : Progress A)
              → ((k : String)
                  → contains k p.updated_normal_keys ≡ contains k (node_keys policies cs ++ seen))
              → Conflicts
                  (has_conflict policies (node_keys policies cs ++ seen) groups)
                  (for_each (apply_node add deepcopy policies) groups p).1)
          → Conflicts
              (has_conflict policies seen (cs ∷ groups))
              (continue r (for_each (apply_node add deepcopy policies) groups)).1
      rest (p, raise e) m next = λ e'. ground (arith, m e')
      rest (p, ok tt) m next = rw (m.2) (
          next p
            (λ k. ground (arith, (m.0 k).0, m.1 k, contains-append k (node_keys policies cs) seen)))

  -- Where no `__add__` of two values raises `ValueError`: a batch of commands that is applied to the end
  -- has no two nodes that write the same field which is not `AutoMerge`, and `ValueError` is raised only
  -- if there are two such nodes.
  pub apply_batch-Conflicts :
      (s : State A) (groups : List (List (Command A)))
      → Outcome (has_conflict policies [] groups) (apply_batch add deepcopy policies s groups).1
  unfolding apply_batch apply_groups
  apply_batch-Conflicts s groups =
      result (for_each (apply_node add deepcopy policies) groups (start s))
        (groups-Conflicts groups [] (start s) (λ k. refl))
    where
      result :
          (r : Progress A × Result (Unit {0}))
          → Conflicts (has_conflict policies [] groups) r.1
          → Outcome (has_conflict policies [] groups) (targeted add deepcopy policies r).1
      result (p, ok tt) h = h
      result (p, raise e) h = raised-Outcome (has_conflict policies [] groups) e h
