-- ===== src/Graph/Commands.antt =====
-- `NodeGraph.apply_command` of source/apixis/core/graph/node_graph.py, and the targets beside it.
-- The state is changed in place, so it comes back beside an exception too.
pub mod Targets
pub mod Conflicts
use apixis.Base.{
  String, Bool, true, false, not, ◌&&◌, ◌||◌, List, [], ◌∷◌, ◌++◌, Option, none, some, Result, ok,
  raise, Error, ◌>>=◌, type_error, value_error, ◌==◌, string_eq, if◌then◌else◌, contains, ◌≡◌, refl,
  arith,
}
use apixis.Base.Dict.{Dict, get, put}
use apixis.Graph.State.{State, Policies, copy_state}
use apixis.Graph.Command.{
  Command, Update, plain, reset, Mapping, dict, mapping, not_mapping, Goto, nowhere, not_goto, to,
  to_all, end_name,
}

-- What `current_value.__add__(value)` gives: there may be no such method, and it may raise.
pub data Added (A : Type 0) : Type 0 where
  no_method not_implemented : Added A
  sum : A → Added A
  raises : Error → Added A

-- The locals of the loops, with the live state.
pub record Progress (A : Type 0) : Type 0 where
  pub state : State A
  pub updated_normal_keys : List String
  pub current_node_normal_keys : List String
  pub next_targets : List String
  pub concurrent : Bool

abbrev pub start : {A : Type 0} → State A → Progress A
start s = record {
  state = s;
  updated_normal_keys = [];
  current_node_normal_keys = [];
  next_targets = [];
  concurrent = false;
}

-- A `for` loop whose body may raise.
abbrev pub continue :
    {S : Type 0} → S × Result (Unit {0}) → (S → S × Result (Unit {0})) → S × Result (Unit {0})
continue (s, ok tt) k = k s
continue (s, raise e) k = (s, raise e)

module _ {S X : Type 0} (body : S → X → S × Result (Unit {0})) where
  unfoldable pub for_each : List X → S → S × Result (Unit {0})
  for_each [] s = (s, ok tt)
  for_each (x ∷ xs) s = continue (body s x) (λ s'. for_each xs s')

-- A write to the keys of a dict that is used as an ordered set.
abbrev pub add_key : String → List String → List String
add_key n names = if contains n names then names else names ++ n ∷ []

-- The next step of a run: one node or the end, or a batch.
pub data Target : Type 0 where
  one : String → Target
  batch : List String → Target

abbrev pub is_several : List String → Bool
is_several (a ∷ b ∷ rest) = true
is_several _ = false

abbrev pub first_target : List String → Target
first_target [] = one end_name
first_target (a ∷ rest) = one a

abbrev pub is_none : List String → Bool
is_none [] = true
is_none (a ∷ rest) = false

module _ {A : Type 0} where
  abbrev pub add_target : String → Progress A → Progress A
  add_target name pr = record pr { next_targets = add_key name pr.next_targets }

  abbrev pub add_targets : List String → Progress A → Progress A
  add_targets [] pr = pr
  add_targets (name ∷ names) pr =
      add_targets names
        (if name == end_name then pr else record (add_target name pr) { concurrent = true })

  unfoldable pub apply_goto : Goto → Progress A → Progress A × Result (Unit {0})
  apply_goto nowhere pr = (pr, ok tt)
  apply_goto not_goto pr = (pr, raise type_error)
  apply_goto (to name) pr = (if name == end_name then pr else add_target name pr, ok tt)
  apply_goto (to_all names) pr = (add_targets names pr, ok tt)

  unfoldable pub next_target : Progress A → Target
  next_target pr =
      if is_none pr.next_targets
      then one end_name
      else if pr.concurrent || is_several pr.next_targets
      then batch pr.next_targets
      else first_target pr.next_targets

abbrev pub write : {A : Type 0} → String → A → Progress A → Progress A × Result (Unit {0})
write k v pr = (record pr { state = put k v pr.state }, ok tt)

abbrev pub is_auto_merge : Policies → String → Bool
is_auto_merge policies k = contains k policies.auto_merge_keys

module _ {A : Type 0} (policies : Policies) where
  -- Another node of the batch has updated the field.
  abbrev pub is_conflict : String → Progress A → Bool
  is_conflict k pr =
      not (is_auto_merge policies k)
      && (contains k pr.updated_normal_keys && not (contains k pr.current_node_normal_keys))

  abbrev pub noted : String → Progress A → Progress A
  noted k pr = if is_auto_merge policies k then pr else record pr {
    updated_normal_keys = k ∷ pr.updated_normal_keys;
    current_node_normal_keys = k ∷ pr.current_node_normal_keys;
  }

module _ {A : Type 0} (add : A → A → Added A) (deepcopy : A → A) (policies : Policies) where
  abbrev pub merge : String → Added A → Progress A → Progress A × Result (Unit {0})
  merge k (sum v) pr = write k v pr
  merge k (raises e) pr = (pr, raise e)
  merge k no_method pr = (pr, raise type_error)
  merge k not_implemented pr = (pr, raise type_error)

  abbrev pub merge_into : String → Option A → A → Progress A → Progress A × Result (Unit {0})
  merge_into k none v pr = write k v pr
  merge_into k (some current) v pr = merge k (add current v) pr

  -- `Reset` replaces; an AutoMerge field that is present is added to; any other is written.
  unfoldable pub store : String → Update A → Progress A → Progress A × Result (Unit {0})
  store k (reset v) pr = write k v pr
  store k (plain v) pr =
      merge_into k (if is_auto_merge policies k then get k pr.state else none) v pr

  unfoldable pub apply_field : Progress A → String × Update A → Progress A × Result (Unit {0})
  unfolding store
  apply_field pr (k, u) =
      if is_conflict policies k pr then (pr, raise value_error) else store k u (noted policies k pr)

  abbrev pub copied : Update A → Update A
  copied (plain v) = plain (deepcopy v)
  copied (reset v) = reset (deepcopy v)

  unfoldable pub apply_update : Mapping A → Progress A → Progress A × Result (Unit {0})
  unfolding apply_field
  apply_update (dict u) pr = for_each apply_field (copy_state copied u policies.keep_ref_keys) pr
  apply_update (mapping u) pr = (pr, raise type_error)
  apply_update not_mapping pr = (pr, raise type_error)

  unfoldable pub apply_one : Progress A → Command A → Progress A × Result (Unit {0})
  unfolding apply_update apply_goto
  apply_one pr c = continue (apply_update c.update pr) (apply_goto c.goto)

  -- The commands of one node.
  unfoldable pub apply_node : Progress A → List (Command A) → Progress A × Result (Unit {0})
  unfolding apply_one
  apply_node pr cs = for_each apply_one cs (record pr { current_node_normal_keys = [] })

  unfoldable pub apply_groups :
      List (List (Command A)) → Progress A → Progress A × Result (Unit {0})
  unfolding apply_node
  apply_groups groups pr = for_each apply_node groups pr

  abbrev pub targeted : Progress A × Result (Unit {0}) → State A × Result Target
  targeted (pr, ok tt) = (pr.state, ok (next_target pr))
  targeted (pr, raise e) = (pr.state, raise e)

  -- One group of commands for each node of the batch, in order.
  unfoldable pub apply_batch : State A → List (List (Command A)) → State A × Result Target
  unfolding apply_groups next_target
  apply_batch s groups = targeted (apply_groups groups (start s))
