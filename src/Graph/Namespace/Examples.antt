-- ===== src/Graph/Namespace/Examples.antt =====
-- Two graphs that follow each other in one namespace, and the names of two namespaces.
use apixis.Base.{String, true, false, none, ok, ◌≡◌, refl, ◌↔◌, nat_eq}
use apixis.Base.Dict.{get, put}
use apixis.Event.Glob.{fnmatchcase}
use apixis.Graph.Namespace.{
  Graph, Domain, construct, acquire_namespace, release_namespace, validate_namespace,
  graph_dispatch, graph_interrupted, qualified,
}
use apixis.Graph.Namespace.Owners.{empty, constructs, Reach-IsExclusive}
use apixis.Graph.Namespace.Live.{empty_domain, IsExclusive}
use apixis.Graph.Namespace.Isolation.{fnmatchcase-qualified}

abbrev agent : String → Graph
agent graph_id = record { namespace = "agent"; graph_id = graph_id; decomposed = true }

abbrev first : Domain
first = (construct (ok tt) 1 (agent "g1") false empty_domain).0

abbrev second : Domain
second = (construct (ok tt) 2 (agent "g2") true first).0

unused_1 : get 1 empty_domain.graphs ≡ none
unfolding get
unused_1 = refl

unused_2 : get 2 first.graphs ≡ none
unfolding get put construct acquire_namespace release_namespace validate_namespace
unused_2 = refl

owners_example : IsExclusive second
owners_example = Reach-IsExclusive (
    constructs (ok tt) 2 (agent "g2") true (constructs (ok tt) 1 (agent "g1") false empty unused_1)
      unused_2)

abbrev ours : String
ours = "agent"

abbrev theirs : String
theirs = "agent.tools"

valid_name : validate_namespace theirs ≡ ok tt
unfolding validate_namespace
valid_name = refl

isolation_example :
    ((fnmatchcase (qualified graph_dispatch ours) (qualified graph_dispatch theirs) ≡ true)
      ↔ (ours ≡ theirs))
    × ((fnmatchcase (qualified graph_interrupted ours) (qualified graph_interrupted theirs) ≡ true)
        ↔ (ours ≡ theirs))
    × (fnmatchcase (qualified graph_interrupted ours) (qualified graph_dispatch theirs) ≡ false)
    × (fnmatchcase (qualified graph_dispatch ours) (qualified graph_interrupted theirs) ≡ false)
isolation_example = fnmatchcase-qualified ours theirs valid_name
