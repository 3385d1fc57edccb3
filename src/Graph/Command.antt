-- ===== src/Graph/Command.antt =====
-- `Command` of source/apixis/core/graph/base.py, and the normalisation of what a node returns
-- (source/apixis/core/graph/node.py), over values of any Python type.
use apixis.Base.{
  String, Bool, true, false, ◌&&◌, List, [], ◌∷◌, Option, none, some, is_some, all, Result, ok,
  raise, ◌>>=◌, invalid_node_returns, if◌then◌else◌, ◌≡◌, refl, arith,
}
use apixis.Base.Dict.{Dict}

-- The terminal target, `_END`.
abbrev pub end_name : String
end_name = "__end__"

-- A list with an item that is no text is `not_goto`.
pub data Goto : Type 0 where
  nowhere not_goto : Goto
  to : String → Goto
  to_all : List String → Goto

-- A value of an update, as it is or in `Reset`.
pub data Update (A : Type 0) : Type 0 where
  plain reset : A → Update A

-- `update` is a dict, another mapping, or neither.
pub data Mapping (A : Type 0) : Type 0 where
  dict mapping : Dict String (Update A) → Mapping A
  not_mapping : Mapping A

pub record Command (A : Type 0) : Type 0 where
  pub update : Mapping A
  pub goto : Goto

pub is_valid_goto : Goto → Bool
is_valid_goto nowhere = true
is_valid_goto not_goto = false
is_valid_goto (to name) = true
is_valid_goto (to_all names) = true

abbrev names_nodes : Goto → Bool
names_nodes not_goto = false
names_nodes _ = true

-- What a node function returns.
pub data Returned (A : Type 0) : Type 0 where
  command : Command A → Returned A
  state_update : Dict String (Update A) → Returned A
  neither : Returned A

pub data NodeResult (A : Type 0) : Type 0 where
  one_result : Returned A → NodeResult A
  many_results : List (Returned A) → NodeResult A

module _ {A : Type 0} where
  as_dict : Mapping A → Result (Mapping A)
  as_dict (dict u) = ok (dict u)
  as_dict (mapping u) = ok (dict u)
  as_dict not_mapping = raise invalid_node_returns

  pub normalise_single_result : Returned A → Result (Command A)
  unfolding as_dict is_valid_goto
  normalise_single_result (command c) = do
    update ← as_dict c.update
    if is_valid_goto c.goto
        then ok (record { update = update; goto = c.goto })
        else raise invalid_node_returns
  normalise_single_result (state_update u) = ok (record { update = dict u; goto = nowhere })
  normalise_single_result neither = raise invalid_node_returns

  abbrev normalise_items : List (Returned A) → Result (List (Command A))
  normalise_items [] = ok []
  normalise_items (r ∷ rs) =
      normalise_single_result r >>= λ c. normalise_items rs >>= λ cs. ok (c ∷ cs)

  -- `BaseNode._normalise_result`: one command, or one for each item of a list.
  pub normalise_result : NodeResult A → Result (List (Command A))
  normalise_result (one_result r) = normalise_single_result r >>= λ c. ok (c ∷ [])
  normalise_result (many_results rs) = normalise_items rs

  -- `Node._normalise_result` and `ParallelNode._normalise_result`, which allow no list.
  pub normalise_node_result : NodeResult A → Result (Command A)
  normalise_node_result (one_result r) = normalise_single_result r
  normalise_node_result (many_results rs) = raise invalid_node_returns

  -- `ParallelNode.execute`: the commands of the branches, in the order of their declaration.
  unfoldable pub parallel_execute : List (NodeResult A) → Result (List (Command A))
  unfolding normalise_node_result
  parallel_execute [] = ok []
  parallel_execute (r ∷ rs) =
      normalise_node_result r >>= λ c. parallel_execute rs >>= λ cs. ok (c ∷ cs)

  -- A command that `apply_command` takes: its update is a dict and its target valid.
  abbrev pub is_normal : Command A → Bool
  is_normal c = elim c.update [
    | dict u ↦ is_valid_goto c.goto
    | mapping u ↦ false
    | not_mapping ↦ false
  ]

  abbrev entries : Mapping A → Option (Dict String (Update A))
  entries (dict u) = some u
  entries (mapping u) = some u
  entries not_mapping = none

  -- The values that a node may return: a command with a mapping and a valid target, or a mapping.
  abbrev is_acceptable : Returned A → Bool
  is_acceptable (command c) = is_some (entries c.update) && names_nodes c.goto
  is_acceptable (state_update u) = true
  is_acceptable neither = false

  -- The command for a value: with all entries of its update, and its own target or none.
  abbrev pub IsNormalOf : Returned A → Command A → Type 0
  IsNormalOf (command c) d =
      (is_normal d ≡ true) × (entries d.update ≡ entries c.update) × (d.goto ≡ c.goto)
  IsNormalOf (state_update u) d = (d.update ≡ dict u) × (d.goto ≡ nowhere)
  IsNormalOf neither d = ⊥

  abbrev pub AreNormalOf : List (Returned A) → List (Command A) → Type 0
  AreNormalOf [] [] = Unit
  AreNormalOf (r ∷ rs) (c ∷ cs) = IsNormalOf r c × AreNormalOf rs cs
  AreNormalOf _ _ = ⊥

  abbrev pub AllNormal : List (Returned A) → Result (List (Command A)) → Type 0
  AllNormal rs (ok cs) = AreNormalOf rs cs
  AllNormal rs (raise e) = (e ≡ invalid_node_returns) × (all is_acceptable rs ≡ false)

  -- A node of its own, or a branch, returns one value.
  abbrev pub NodeNormal : NodeResult A → Result (Command A) → Type 0
  NodeNormal (one_result r) q = AllNormal (r ∷ []) (q >>= λ c. ok (c ∷ []))
  NodeNormal (many_results rs) q = q ≡ raise invalid_node_returns

  abbrev pub items : NodeResult A → List (Returned A)
  items (one_result r) = r ∷ []
  items (many_results rs) = rs

  parts-AllNormal :
      (u : Mapping A) (g : Goto)
      → AllNormal
          (command (record { update = u; goto = g }) ∷ [])
          (normalise_single_result (command (record { update = u; goto = g })) >>= λ c. ok (c ∷ []))
  unfolding normalise_single_result
  parts-AllNormal (dict u) not_goto = (refl, refl)
  parts-AllNormal (dict u) nowhere = ((refl, refl, refl), tt)
  parts-AllNormal (dict u) (to n) = ((refl, refl, refl), tt)
  parts-AllNormal (dict u) (to_all ns) = ((refl, refl, refl), tt)
  parts-AllNormal (mapping u) not_goto = (refl, refl)
  parts-AllNormal (mapping u) nowhere = ((refl, refl, refl), tt)
  parts-AllNormal (mapping u) (to n) = ((refl, refl, refl), tt)
  parts-AllNormal (mapping u) (to_all ns) = ((refl, refl, refl), tt)
  parts-AllNormal not_mapping g = (refl, refl)

  single-AllNormal :
      (r : Returned A) → AllNormal (r ∷ []) (normalise_single_result r >>= λ c. ok (c ∷ []))
  unfolding normalise_single_result
  single-AllNormal (command c) = parts-AllNormal c.update c.goto
  single-AllNormal (state_update u) = ((refl, refl), tt)
  single-AllNormal neither = (refl, refl)

  cons-AllNormal :
      (r : Returned A) (rs : List (Returned A)) (c : Result (Command A))
      (cs : Result (List (Command A)))
      → AllNormal (r ∷ []) (c >>= λ x. ok (x ∷ []))
      → AllNormal rs cs
      → AllNormal (r ∷ rs) (c >>= λ x. cs >>= λ xs. ok (x ∷ xs))
  cons-AllNormal r rs (ok c) (ok cs) h k = (h.0, k)
  cons-AllNormal r rs (ok c) (raise e) h k = (k.0, ground (arith, k.1))
  cons-AllNormal r rs (raise e) cs h k = (h.0, ground (arith, h.1))

  items-AllNormal : (rs : List (Returned A)) → AllNormal rs (normalise_items rs)
  items-AllNormal [] = tt
  items-AllNormal (r ∷ rs) =
      cons-AllNormal r rs (normalise_single_result r) (normalise_items rs) (single-AllNormal r)
        (items-AllNormal rs)

  -- Whatever a node returns, `BaseNode._normalise_result` gives one command for each value, in order:
  -- its update is a dict with the entries of the value, its target valid and that of the value, or none
  -- for a mapping. It raises `InvalidNodeReturnsError`, and nothing else, only where a value is neither a
  -- mapping nor a command with a mapping and a valid target. `Node._normalise_result` does the same for
  -- one value, and raises that error on a list.
  pub normalise_result-AllNormal :
      (r : NodeResult A)
      → AllNormal (items r) (normalise_result r) × NodeNormal r (normalise_node_result r)
  unfolding normalise_result normalise_node_result
  normalise_result-AllNormal (one_result r) = (single-AllNormal r, single-AllNormal r)
  normalise_result-AllNormal (many_results rs) = (items-AllNormal rs, refl)
