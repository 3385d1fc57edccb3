-- ===== src/Graph/Definition/Examples.antt =====
-- A manager with three nodes, after three calls that raise.
use apixis.Base.{
  ℕ, false, List, [], ◌∷◌, none, some, ok, raise, value_error, if◌then◌else◌, contains, string_eq,
  nat_eq, ◌≡◌, refl,
}
use apixis.Base.Int.{pos}
use apixis.Base.Dict.{keys, get, put}
use apixis.Graph.Command.{end_name}
use apixis.Graph.Definition.{
  Node, GraphManager, base_node, callable, no_timeout, not_number, seconds, add_node, make_node,
  set_timeout, validate_graph_definition,
}
use apixis.Graph.Definition.Names.{
  Call, Keeps, after_calls, new_manager, items_of, validate-after_calls,
}

abbrev objects : ℕ → Node
objects i = record { name = "tool"; timeout = none }

abbrev calls : List Call
calls =
    (1, callable "left", none, seconds (pos 5))
    ∷ (2, callable "left", some "", no_timeout)
    ∷ (4, base_node 4, some "right", not_number)
    ∷ (5, base_node 5, some "", no_timeout)
    ∷ (6, base_node 6, none, no_timeout)
    ∷ []

abbrev later : List Call
later =
    (7, base_node 7, some "left", no_timeout) ∷ (6, base_node 6, some "__end__", no_timeout) ∷ []

abbrev manager : GraphManager
manager = after_calls calls (new_manager objects)

-- The refused call leaves the object that is registered as `tool` with the reserved name.
renamed_in_place : ((after_calls later manager).objects 6).name ≡ "__end__"
unfolding after_calls add_node make_node set_timeout get put
renamed_in_place = refl

definition_example :
    (contains end_name (keys manager.nodes) ≡ false)
    × Keeps (get "left" manager.nodes) (get "left" (after_calls later manager).nodes)
    × (validate_graph_definition (some (items_of (keys manager.nodes)))
        ≡ (if contains "" (keys manager.nodes) then raise value_error else ok tt))
definition_example = validate-after_calls objects calls later "left"
