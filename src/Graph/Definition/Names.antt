-- ===== src/Graph/Definition/Names.antt =====
-- The names that a manager registers (source/apixis/core/graph/graph_manager.py), and their validation
-- when the graph is compiled.
use apixis.Base.{
  ℕ, String, Bool, true, false, List, [], ◌∷◌, ◌++◌, map, Option, none, some, Result, ok, raise,
  value_error, if◌then◌else◌, ◌==◌, string_eq, eq_true, contains, contains-append, Bool-cases, inl,
  inr, ◌⊎◌, ◌≡◌, refl, ap, ◌∙◌, arith, is_some,
}
use apixis.Base.Dict.{Dict, keys, get, has, put, keys-put, get-put}
use apixis.Graph.Command.{end_name}
use apixis.Graph.Definition.{
  Node, NodeArgument, TimeoutArgument, GraphManager, with_object, base_node, callable, not_callable,
  add_node, added, added_new, overridden, may_add, make_node, renamed, Key, text, check_keys,
  validate_graph_definition,
}

-- The mapping of a manager, whose values are nodes.
abbrev pub items_of : List String → List (Key × Bool)
items_of names = map (λ n. (text n, true)) names

-- A name that stands for a node still stands for that node.
abbrev pub Keeps : Option ℕ → Option ℕ → Type 0
Keeps none o = Unit
Keeps (some i) o = o ≡ some i

-- What a call does to the names: `END` does not come among them, and every name keeps its node.
record Extends (nodes nodes' : Dict String ℕ) : Type 0 where
  no_end : contains end_name (keys nodes) ≡ false → contains end_name (keys nodes') ≡ false
  kept : (name : String) (i : ℕ) → get name nodes ≡ some i → get name nodes' ≡ some i

Extends-refl : (nodes : Dict String ℕ) → Extends nodes nodes
Extends-refl nodes = record { no_end = λ h. h; kept = λ name i h. h }

may_add-new :
    (nodes : Dict String ℕ) (name : String) (u : Unit {0})
    → may_add nodes name ≡ ok u
    → ((name == end_name) ≡ false) × (has name nodes ≡ false)
may_add-new nodes name u h = (ground (arith, h), ground (arith, h))

put-Extends :
    (name : String) (i : ℕ) (nodes : Dict String ℕ)
    → ((name == end_name) ≡ false) × (has name nodes ≡ false)
    → Extends nodes (put name i nodes)
put-Extends name i nodes (other, new) = record {
  no_end = λ h. ap (contains end_name) (keys-put name i nodes) ∙ absent (has name nodes) h;
  kept = λ k j h. get-put name k i nodes ∙ same k j h (Bool-cases (name == k));
}
  where
    absent :
        (old : Bool)
        → contains end_name (keys nodes) ≡ false
        → contains end_name (if old then keys nodes else keys nodes ++ name ∷ []) ≡ false
    absent true h = h
    absent false h = contains-append end_name (keys nodes) (name ∷ []) ∙ ground (arith, other, h)

    same :
        (k : String) (j : ℕ)
        → get k nodes ≡ some j
        → ((name == k) ≡ true) ⊎ ((name == k) ≡ false)
        → (if name == k then some i else get k nodes) ≡ some j
    same k j h (inl e) =
        let old : has name nodes ≡ true =
          ap (λ q. is_some (get q nodes)) (eq_true name k e) ∙ ap is_some h in
        cc (old, new)
    same k j h (inr e) = rw (e) h

added-Extends :
    (m : GraphManager) (i : ℕ) (name : String) (done : Result Node) (allowed : Result (Unit {0}))
    → may_add m.nodes name ≡ allowed
    → Extends m.nodes (added m i name done allowed).0.nodes
added-Extends m i name done (raise x) h = Extends-refl m.nodes
added-Extends m i name (raise x) (ok u) h = Extends-refl m.nodes
added-Extends m i name (ok n) (ok u) h = put-Extends name i m.nodes (may_add-new m.nodes name u h)

added_new-Extends :
    (m : GraphManager) (i : ℕ) (made : Result Node) → Extends m.nodes (added_new m i made).0.nodes
added_new-Extends m i (raise x) = Extends-refl m.nodes
added_new-Extends m i (ok n) =
    added-Extends (with_object i n m) i n.name (ok n) (may_add m.nodes n.name) refl

-- The arguments of calls of `add_node`, with the number of a node that is made.
abbrev pub Call : Type 0
Call = ℕ × NodeArgument × Option String × TimeoutArgument

add_node-Extends :
    (new : ℕ) (a : NodeArgument) (name : Option String) (t : TimeoutArgument) (m : GraphManager)
    → Extends m.nodes (add_node new a name t m).0.nodes
unfolding add_node
add_node-Extends new (base_node i) name t m =
    let n : Node = renamed name (m.objects i) in
    added-Extends (with_object i n m) i n.name (overridden t n) (may_add m.nodes n.name) refl
add_node-Extends new (callable own) name t m = added_new-Extends m new (make_node own name t)
add_node-Extends new not_callable name t m = Extends-refl m.nodes

unfoldable pub after_calls : List Call → GraphManager → GraphManager
after_calls [] m = m
after_calls ((new, a, name, t) ∷ calls) m = after_calls calls (add_node new a name t m).0

after_calls-Extends :
    (calls : List Call) (m : GraphManager) → Extends m.nodes (after_calls calls m).nodes
unfolding after_calls
after_calls-Extends [] m = Extends-refl m.nodes
after_calls-Extends ((new, a, name, t) ∷ calls) m =
    let first = add_node-Extends new a name t m in
    let rest = after_calls-Extends calls (add_node new a name t m).0 in
    record {
      no_end = λ h. rest.no_end (first.no_end h);
      kept = λ k i h. rest.kept k i (first.kept k i h);
    }

check_keys-items :
    (names : List String)
    → contains end_name names ≡ false
    → check_keys (items_of names) ≡ (if contains "" names then raise value_error else ok tt)
check_keys-items [] h = refl
check_keys-items (n ∷ names) h = ground (arith, h, check_keys-items names)

kept_at :
    (nodes nodes' : Dict String ℕ) (name : String) (o : Option ℕ)
    → get name nodes ≡ o
    → Extends nodes nodes'
    → Keeps o (get name nodes')
kept_at nodes nodes' name none h x = tt
kept_at nodes nodes' name (some i) h x = x.kept name i h

abbrev pub new_manager : (ℕ → Node) → GraphManager
new_manager objects = record { nodes = []; objects = objects }

-- After any calls of `add_node` on a new manager, whether they raised or not, `END` is no name of a node,
-- and a name that stands for a node stands for the same node object after any further calls. The
-- validation of the definition when it is compiled raises `ValueError` exactly if a node has been added
-- under the empty name, and nothing else.
pub validate-after_calls :
    (objects : ℕ → Node) (calls later : List Call) (name : String)
    → (contains end_name (keys (after_calls calls (new_manager objects)).nodes) ≡ false)
      × Keeps
          (get name (after_calls calls (new_manager objects)).nodes)
          (get name (after_calls later (after_calls calls (new_manager objects))).nodes)
      × (validate_graph_definition
            (some (items_of (keys (after_calls calls (new_manager objects)).nodes)))
          ≡ (if contains "" (keys (after_calls calls (new_manager objects)).nodes)
              then raise value_error
              else ok tt))
unfolding validate_graph_definition
validate-after_calls objects calls later name =
    let m : GraphManager = after_calls calls (new_manager objects) in
    let absent = (after_calls-Extends calls (new_manager objects)).no_end refl in
    (
      absent,
      kept_at m.nodes (after_calls later m).nodes name (get name m.nodes) refl
          (after_calls-Extends later m),
      check_keys-items (keys m.nodes) absent,
    )
