-- ===== src/Graph/Commands/Conflicts.antt =====
-- Conflicting writes of a concurrent batch, in `NodeGraph.apply_command`
-- (source/apixis/core/graph/node_graph.py).
pub mod Batches
use apixis.Base.{
  String, Bool, true, false, not, ◌&&◌, ◌||◌, List, [], ◌∷◌, ◌++◌, Option, none, some, Result,
  Error, ok, raise, value_error, type_error, ◌==◌, string_eq, if_cases, append-nil, Bool-cases, inl,
  inr, ap, subst, ◌∙◌, contains, contains-append, any, select, ◌≡◌, refl, arith,
}
use apixis.Base.Dict.{Dict, keys}
use apixis.Graph.State.{State, Policies, copy_state, copy_state_lem}
use apixis.Graph.Command.{
  Command, Update, plain, reset, Mapping, dict, mapping, not_mapping, Goto, nowhere, not_goto, to,
  to_all, end_name,
}
use apixis.Graph.Commands.{
  Progress, Target, is_auto_merge, Added, no_method, not_implemented, sum, start, continue,
  for_each, is_conflict, noted, store, merge, merge_into, apply_field, apply_update, apply_goto,
  apply_one, apply_node, apply_groups, apply_batch, copied, targeted, add_targets, add_target,
}

-- The fields of an update that are not marked `AutoMerge`.
abbrev pub normal_keys : {A : Type 0} → Policies → Mapping A → List String
normal_keys p (dict u) = select (λ k. not (is_auto_merge p k)) (keys u)
normal_keys p (mapping u) = []
normal_keys p not_mapping = []

abbrev pub node_keys : {A : Type 0} → Policies → List (Command A) → List String
node_keys p [] = []
node_keys p (c ∷ cs) = normal_keys p c.update ++ node_keys p cs

-- A node of the batch writes a field that an earlier node has written.
abbrev pub has_conflict : {A : Type 0} → Policies → List String → List (List (Command A)) → Bool
has_conflict p seen [] = false
has_conflict p seen (cs ∷ groups) =
    any (λ k. contains k seen) (node_keys p cs) || has_conflict p (node_keys p cs ++ seen) groups

pub any-append :
    (p : String → Bool) (xs ys : List String) → any p (xs ++ ys) ≡ (any p xs || any p ys)
any-append p [] ys = refl
any-append p (x ∷ xs) ys = ground (arith, any-append p xs ys)

abbrev pub gathered : {X : Type 0} → (X → List String) → List X → List String
gathered of [] = []
gathered of (x ∷ xs) = of x ++ gathered of xs

module _ {A : Type 0} (seen : List String) where
  -- The keys noted are those of the earlier nodes and those of the current one, which differ.
  pub IsTracked : Progress A → Type 0
  IsTracked pr =
      (k : String)
      → (contains k pr.updated_normal_keys
          ≡ (contains k seen || contains k pr.current_node_normal_keys))
        × ((contains k pr.current_node_normal_keys && contains k seen) ≡ false)

  -- What writes to the keys `ks` do to the progress: they raise `ValueError` only on a conflict, and
  -- end well only without one.
  pub Marks : List String → List String → Progress A × Result (Unit {0}) → Type 0
  unfolding IsTracked
  Marks cur ks (pr, ok tt) =
      IsTracked pr
      × ((k : String) → contains k pr.current_node_normal_keys ≡ (contains k cur || contains k ks))
      × (any (λ k. contains k seen) ks ≡ false)
  Marks cur ks (pr, raise e) = e ≡ value_error → any (λ k. contains k seen) ks ≡ true

  pub Marks-then :
      (cur between ks js : List String) (r : Progress A × Result (Unit {0}))
      → ((k : String) → contains k between ≡ (contains k cur || contains k ks))
      → any (λ k. contains k seen) ks ≡ false
      → Marks between js r
      → Marks cur (ks ++ js) r
  unfolding Marks
  Marks-then cur between ks js (pr, raise e) same clear h =
      λ e'. ground (arith, h e', any-append (λ x. contains x seen) ks js)
  Marks-then cur between ks js (pr, ok tt) same clear h = (
    h.0,
    λ k. ground (arith, same k, h.1 k, contains-append k ks js),
    ground (arith, h.2, any-append (λ x. contains x seen) ks js),
  )

  pub raised-Marks : (cur ks : List String) (pr : Progress A) → Marks cur ks (pr, raise type_error)
  unfolding Marks
  raised-Marks cur ks pr = λ e. cc e

  pub Marks-continue :
      (cur ks js : List String) (r : Progress A × Result (Unit {0}))
      (f : Progress A → Progress A × Result (Unit {0}))
      → Marks cur ks r
      → ((pr : Progress A) → IsTracked pr → Marks pr.current_node_normal_keys js (f pr))
      → Marks cur (ks ++ js) (continue r f)
  unfolding Marks Marks-then
  Marks-continue cur ks js (pr, raise e) f h k =
      λ e'. ground (arith, h e', any-append (λ x. contains x seen) ks js)
  Marks-continue cur ks js (pr, ok tt) f h k =
      Marks-then cur pr.current_node_normal_keys ks js (f pr) h.1 h.2 (k pr h.0)

  -- A loop whose step writes the keys `of x` writes those of all its items.
  pub Marks-for_each :
      {X : Type 0} (of : X → List String) (body : Progress A → X → Progress A × Result (Unit {0}))
      → ((pr : Progress A) (x : X)
          → IsTracked pr
          → Marks pr.current_node_normal_keys (of x) (body pr x))
      → (xs : List X) (pr : Progress A) → IsTracked pr
      → Marks pr.current_node_normal_keys (gathered of xs) (for_each body xs pr)
  unfolding Marks for_each
  Marks-for_each of body step [] pr t = (t, λ k. ground arith, refl)
  Marks-for_each of body step (x ∷ xs) pr t =
      Marks-continue pr.current_node_normal_keys (of x) (gathered of xs) (body pr x)
        (for_each body xs) (step pr x t) (Marks-for_each of body step xs)

abbrev pub Conflicts : Bool → Result (Unit {0}) → Type 0
Conflicts clash (ok tt) = clash ≡ false
Conflicts clash (raise e) = e ≡ value_error → clash ≡ true

abbrev pub is_value_error : Error → Bool
is_value_error value_error = true
is_value_error _ = false

abbrev pub Outcome : Bool → Result Target → Type 0
Outcome clash (ok target) = clash ≡ false
Outcome clash (raise e) = (not (is_value_error e) || clash) ≡ true

pub raised-Outcome :
    (clash : Bool) (e : Error) → Conflicts clash (raise e) → Outcome clash (raise e)
raised-Outcome clash value_error h = h refl
raised-Outcome clash _ h = refl
