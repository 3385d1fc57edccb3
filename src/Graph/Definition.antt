-- ===== src/Graph/Definition.antt =====
-- The definition of a graph: `GraphManager` of source/apixis/core/graph/graph_manager.py,
-- `validate_graph_definition` of graph/utils/validate.py, and how graph/node.py makes a node. A node is
-- an object that goes by a number. A time is an integer in a unit small enough for all times that occur.
pub mod Names
mod Examples
use apixis.Base.{
  ℕ, String, Bool, true, false, not, ◌&&◌, List, [], ◌∷◌, Option, none, some, Result, ok, raise,
  ◌>>◌, reject, value_error, type_error, if◌then◌else◌, eqb, ◌==◌, string_eq,
}
use apixis.Base.Int.{ℤ, pos, ltb_ℤ}
use apixis.Base.Dict.{Dict, has, put}
use apixis.Graph.Command.{end_name}
use apixis.Graph.Commands.{for_each}

pub record Node : Type 0 where
  pub name : String
  pub timeout : Option ℤ

pub data TimeoutArgument : Type 0 where
  no_timeout not_finite not_number : TimeoutArgument
  seconds : ℤ → TimeoutArgument

abbrev limited : ℤ → Option ℤ
limited t = if ltb_ℤ (pos 0) t then some t else none

-- The setter of `BaseNode.timeout`
unfoldable pub set_timeout : TimeoutArgument → Node → Result Node
set_timeout no_timeout n = ok (record n { timeout = none })
set_timeout (seconds t) n = ok (record n { timeout = limited t })
set_timeout not_finite n = raise value_error
set_timeout not_number n = raise type_error

-- What is added: a node object by its number, or a callable with its name, or another value.
pub data NodeArgument : Type 0 where
  base_node : ℕ → NodeArgument
  callable : String → NodeArgument
  not_callable : NodeArgument

abbrev or_name : Option String → String → String
or_name none own = own
or_name (some s) own = if s == "" then own else s

abbrev checked : Node → Result Node
checked n = if n.name == "" then raise value_error else ok n

abbrev timed : TimeoutArgument → Result Node → Result Node
timed t (raise x) = raise x
timed t (ok n) = set_timeout t n

-- `Node.__init__`
unfoldable pub make_node : String → Option String → TimeoutArgument → Result Node
unfolding set_timeout
make_node own name t = timed t (checked (record { name = or_name name own; timeout = none }))

abbrev pub renamed : Option String → Node → Node
renamed none n = n
renamed (some s) n = record n { name = s }

-- The mapping of a manager, from names to node objects, with these objects: they are shared with
-- whoever holds them, and go on existing when a call raises.
pub record GraphManager : Type 0 where
  pub nodes : Dict String ℕ
  pub objects : ℕ → Node

abbrev pub with_object : ℕ → Node → GraphManager → GraphManager
with_object i n m = record m { objects = λ j. if eqb j i then n else m.objects j }

abbrev pub may_add : Dict String ℕ → String → Result (Unit {0})
may_add nodes name = reject (name == end_name) value_error >> reject (has name nodes) value_error

abbrev pub with_node : GraphManager → ℕ → String → Result Node → GraphManager × Result (Unit {0})
with_node m i name (raise x) = (m, raise x)
with_node m i name (ok n) = (record (with_object i n m) { nodes = put name i m.nodes }, ok tt)

abbrev pub added :
    GraphManager → ℕ → String → Result Node → Result (Unit {0}) → GraphManager × Result (Unit {0})
added m i name done (raise x) = (m, raise x)
added m i name done (ok u) = with_node m i name done

-- The timeout that replaces the node's own, if one is given.
abbrev pub overridden : TimeoutArgument → Node → Result Node
overridden no_timeout n = ok n
overridden t n = set_timeout t n

-- An object that is there already is renamed in place, before any check.
abbrev pub added_object :
    ℕ → Node → TimeoutArgument → GraphManager → GraphManager × Result (Unit {0})
added_object i n t m = added (with_object i n m) i n.name (overridden t n) (may_add m.nodes n.name)

abbrev pub added_new : GraphManager → ℕ → Result Node → GraphManager × Result (Unit {0})
added_new m i (raise x) = (m, raise x)
added_new m i (ok n) = added (with_object i n m) i n.name (ok n) (may_add m.nodes n.name)

-- `add_node`, with the manager afterwards; `new` is the number of a node that is made.
unfoldable pub add_node :
    ℕ
    → NodeArgument
    → Option String
    → TimeoutArgument
    → GraphManager
    → GraphManager × Result (Unit {0})
unfolding make_node set_timeout
add_node new (base_node i) name t m = added_object i (renamed name (m.objects i)) t m
add_node new (callable own) name t m = added_new m new (make_node own name t)
add_node new not_callable name t m = (m, raise value_error)

-- `add_nodes`, with the number of each node that is made; it stops at the first error.
unfoldable pub add_nodes : List (ℕ × NodeArgument) → GraphManager → GraphManager × Result (Unit {0})
unfolding add_node for_each
add_nodes args m = for_each (λ m' a. add_node a.0 a.1 none no_timeout m') args m

-- A key of the mapping is a text or not, its value a node or not.
pub data Key : Type 0 where
  text : String → Key
  not_text : Key

abbrev check_key : Key → Bool → Result (Unit {0})
check_key not_text is_node = raise type_error
check_key (text s) is_node =
    reject (s == "") value_error
    >> reject (s == end_name) value_error
    >> reject (not is_node) type_error

abbrev pub check_keys : List (Key × Bool) → Result (Unit {0})
check_keys [] = ok tt
check_keys ((k, is_node) ∷ rest) = check_key k is_node >> check_keys rest

-- `validate_graph_definition`, of a mapping or of another value
unfoldable pub validate_graph_definition : Option (List (Key × Bool)) → Result (Unit {0})
validate_graph_definition none = raise type_error
validate_graph_definition (some items) = check_keys items
