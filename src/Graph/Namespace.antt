-- ===== src/Graph/Namespace.antt =====
-- source/apixis/core/graph/utils/namespace.py: who owns a namespace, and the names of its events. A graph
-- is an object and goes by a number; `namespace_graphs` has the owner of each namespace.
pub mod Isolation
pub mod Live
pub mod Owners
mod Examples
use apixis.Base.{
  ℕ, String, Bool, true, false, not, ◌&&◌, ◌||◌, List, [], ◌∷◌, Option, none, some, Result, ok,
  raise, ◌>>=◌, ◌>>◌, reject, value_error, key_error, runtime_error, if◌then◌else◌, ◌==◌, string_eq,
  nat_eq, any, eqb,
}
use apixis.Base.Dict.{Dict, get, put, del, has}
use apixis.Event.Glob.{codes}

abbrev pub graph_dispatch : String
graph_dispatch = "__graph_dispatch__"

abbrev pub graph_interrupted : String
graph_interrupted = "__graph_interrupted__"

abbrev pub global_namespace : String
global_namespace = "<global>"

abbrev pub is_glob : ℕ → Bool
is_glob c = eqb c b'*' || eqb c b'?' || eqb c b'[' || eqb c b']'

-- `validate_namespace`
unfoldable pub validate_namespace : String → Result (Unit {0})
validate_namespace namespace = reject (any is_glob (codes namespace)) value_error

-- What a graph is to its namespace.
pub record Graph : Type 0 where
  pub namespace : String
  pub graph_id : String
  pub decomposed : Bool

pub record Domain : Type 0 where
  pub namespace_graphs : Dict String ℕ
  pub graphs : Dict ℕ Graph

-- The argument of the names: there may be none, or a text, or a graph with its namespace.
pub data NamespaceArgument : Type 0 where
  no_namespace : NamespaceArgument
  by_name of_graph : String → NamespaceArgument

abbrev or_global : String → String
or_global namespace = if namespace == "" then global_namespace else namespace

abbrev chosen : NamespaceArgument → String
chosen no_namespace = global_namespace
chosen (by_name s) = or_global s
chosen (of_graph s) = or_global s

abbrev pub qualified : String → String → String
qualified base namespace = Prim.Native.String.◌++◌ base (Prim.Native.String.◌++◌ "_" namespace)

abbrev name_for : String → Dict String ℕ → Bool → String → Result String
name_for base owners missing_ok namespace =
    reject (not missing_ok && (not (namespace == "*") && not (has namespace owners))) key_error
    >> ok (qualified base namespace)

-- `get_graph_dispatch_name` and `get_graph_interrupted_name`
unfoldable pub get_graph_dispatch_name : Dict String ℕ → NamespaceArgument → Bool → Result String
get_graph_dispatch_name owners a missing_ok = name_for graph_dispatch owners missing_ok (chosen a)

unfoldable pub get_graph_interrupted_name : Dict String ℕ → NamespaceArgument → Bool → Result String
get_graph_interrupted_name owners a missing_ok =
    name_for graph_interrupted owners missing_ok (chosen a)

abbrev is_graph : String → Option Graph → Bool
is_graph graph_id none = false
is_graph graph_id (some g) = g.graph_id == graph_id

-- `get_graph_namespace`
unfoldable pub get_graph_namespace : Dict ℕ Graph → String → Dict String ℕ → Result String
get_graph_namespace graphs graph_id [] = raise runtime_error
get_graph_namespace graphs graph_id ((namespace, i) ∷ owners) =
    let rest = get_graph_namespace graphs graph_id owners in
    if is_graph graph_id (get i graphs) then ok namespace else rest

abbrev pub is_owner : ℕ → Option ℕ → Bool
is_owner i none = false
is_owner i (some j) = i == j

-- `if _namespace_graphs.get(namespace) is graph: _namespace_graphs.pop(namespace)`
abbrev pub released : ℕ → String → Domain → Domain
released i namespace d =
    if is_owner i (get namespace d.namespace_graphs)
    then record d { namespace_graphs = del namespace d.namespace_graphs }
    else d

-- What `decompose(force=True)` does to the namespaces: the first call marks the graph and releases it.
abbrev pub retired : ℕ → Graph → Domain → Domain
retired i g d =
    if g.decomposed
    then d
    else released i g.namespace
        (record d { graphs = put i (record g { decomposed = true }) d.graphs })

-- `release_namespace` of the graph `i`
unfoldable pub release_namespace : ℕ → Graph → Bool → Domain → Domain
release_namespace i g decompose_immediately d =
    released i g.namespace (if decompose_immediately then retired i g d else d)

abbrev claim : ℕ → String → Domain → Domain
claim i namespace d = record d { namespace_graphs = put namespace i d.namespace_graphs }

abbrev pub replaced : ℕ → Option Graph → Domain → Domain
replaced j none d = d
replaced j (some owner) d = release_namespace j owner true d

abbrev pub acquired_from : Option ℕ → ℕ → String → Bool → Domain → Domain × Result (Unit {0})
acquired_from none i namespace replace_existed d = (claim i namespace d, ok tt)
acquired_from (some j) i namespace replace_existed d =
    if i == j
    then (claim i namespace d, ok tt)
    else if not replace_existed
    then (d, raise value_error)
    else (claim i namespace (replaced j (get j d.graphs) d), ok tt)

abbrev pub acquired_valid :
    Result (Unit {0}) → ℕ → String → Bool → Domain → Domain × Result (Unit {0})
acquired_valid (raise x) i namespace replace_existed d = (d, raise x)
acquired_valid (ok tt) i namespace replace_existed d =
    acquired_from (get namespace d.namespace_graphs) i namespace replace_existed d

-- `acquire_namespace` of the graph `i`
unfoldable pub acquire_namespace : ℕ → String → Bool → Domain → Domain × Result (Unit {0})
unfolding validate_namespace release_namespace
acquire_namespace i namespace replace_existed d =
    acquired_valid (validate_namespace namespace) i namespace replace_existed d

abbrev pub listening :
    Result (Unit {0}) → ℕ → Graph → Domain × Result (Unit {0}) → Domain × Result (Unit {0})
listening registered i g (d, raise x) = (d, raise x)
listening (ok u) i g (d, ok v) =
    (record d { graphs = put i (record g { decomposed = false }) d.graphs }, ok tt)
listening (raise x) i g (d, ok v) = (release_namespace i g false d, raise x)

-- The end of `NodeGraph.__init__`, for a new graph that counts as decomposed until its listeners are
-- registered. `registered` is the outcome of that.
unfoldable pub construct :
    Result (Unit {0}) → ℕ → Graph → Bool → Domain → Domain × Result (Unit {0})
unfolding acquire_namespace release_namespace
construct registered i g exist_ok d = listening registered i g (
    acquire_namespace i g.namespace exist_ok
      (record d { graphs = put i (record g { decomposed = true }) d.graphs }))

abbrev pub decomposed_if : ℕ → Option Graph → Domain → Domain
decomposed_if i none d = d
decomposed_if i (some g) d = retired i g d

-- `decompose(force=True)`, as far as the namespaces go
unfoldable pub decompose_graph : ℕ → Domain → Domain
decompose_graph i d = decomposed_if i (get i d.graphs) d
