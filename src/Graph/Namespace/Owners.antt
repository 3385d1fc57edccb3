-- ===== src/Graph/Namespace/Owners.antt =====
-- Who owns a namespace, over all sequences of constructions and decompositions
-- (source/apixis/core/graph/utils/namespace.py).
use apixis.Base.{
  ℕ, String, Bool, true, false, not, ◌≡◌, refl, ap, ◌∙◌, sym, subst, Option, none, some, Result, ok,
  raise, arith, if◌then◌else◌, if_cases, ◌==◌, string_eq, nat_eq, eq_self, value_error,
}
use apixis.Base.Dict.{get, put, get-put, get-del}
use apixis.Graph.Namespace.{
  Graph, Domain, is_owner, released, retired, release_namespace, claim, replaced, acquired_valid,
  acquired_from, acquire_namespace, listening, construct, decomposed_if, decompose_graph,
  validate_namespace,
}
use apixis.Graph.Namespace.Live.{
  live_at, IsExclusive, empty_domain, owner_some, released_free, retired-IsExclusive, retired-free,
  retired-other,
}

-- A namespace is claimed for the graph `i`, which is not live yet.
module _ (i : ℕ) (g : Graph) where
  abbrev new_graph : Graph
  new_graph = record g { decomposed = true }

  record IsClaimed (d : Domain) : Type 0 where
    new : get i d.graphs ≡ some new_graph
    owners :
        (namespace : String) (j : ℕ)
        → is_owner j (get namespace d.namespace_graphs)
          ≡ (if i == j then g.namespace == namespace else live_at namespace (get j d.graphs))

  claim-IsClaimed :
      (d : Domain)
      → IsExclusive d
      → get i d.graphs ≡ some new_graph
      → get g.namespace d.namespace_graphs ≡ none
      → IsClaimed (claim i g.namespace d)
  claim-IsClaimed d exclusive new free = record {
    new = new;
    owners = λ namespace j. rw (get-put g.namespace namespace i d.namespace_graphs) (
        ground (
          arith,
          new,
          free,
          exclusive namespace j,
          string_eq.beq_iff g.namespace namespace,
          nat_eq.beq_iff i j,
          nat_eq.beq_iff j i,
        ));
  }

  listening_live :
      (d : Domain)
      → IsClaimed d
      → IsExclusive (record d { graphs = put i (record g { decomposed = false }) d.graphs })
  listening_live d claimed namespace j =
      rw (get-put i j (record g { decomposed = false }) d.graphs)
        (ground (arith, claimed.owners namespace j))

  release_new : (d : Domain) → IsClaimed d → IsExclusive (released i g.namespace d)
  release_new d claimed =
      let mine : is_owner i (get g.namespace d.namespace_graphs) ≡ true =
        claimed.owners g.namespace i ∙ simp (eq_self i, eq_self g.namespace) in
      let owned = owner_some i (get g.namespace d.namespace_graphs) mine in
      rw (mine) λ namespace j. rw (get-del g.namespace namespace d.namespace_graphs) (
        ground (
          arith,
          owned,
          claimed.new,
          claimed.owners namespace j,
          string_eq.beq_iff g.namespace namespace,
          nat_eq.beq_iff i j,
          nat_eq.beq_iff j i,
        ))

  -- What the acquisition leaves: a claim, or an error with the owners as before.
  abbrev Acquires : Domain × Result (Unit {0}) → Type 0
  Acquires (d, ok u) = IsClaimed d
  Acquires (d, raise x) = IsExclusive d

  listening-IsExclusive :
      (registered : Result (Unit {0})) (q : Domain × Result (Unit {0}))
      → Acquires q
      → IsExclusive (listening registered i g q).0
  unfolding release_namespace
  listening-IsExclusive registered (d, raise x) a = a
  listening-IsExclusive (ok u) (d, ok v) a = listening_live d a
  listening-IsExclusive (raise x) (d, ok v) a = release_new d a

  module _ (d : Domain) (exclusive : IsExclusive d) (new : get i d.graphs ≡ some new_graph) where
    not_mine : (j : ℕ) → get g.namespace d.namespace_graphs ≡ some j → (i == j) ≡ false
    not_mine j h = ground (
      arith,
      new,
      h,
      exclusive g.namespace j,
      exclusive g.namespace i,
      nat_eq.beq_iff i j,
      nat_eq.beq_iff j i,
    )

    live_owner :
        (j : ℕ)
        → get g.namespace d.namespace_graphs ≡ some j
        → live_at g.namespace (get j d.graphs) ≡ true
    live_owner j h = sym (exclusive g.namespace j) ∙ rw (h) (eq_self j)

    replaced-claim :
        (j : ℕ) (o : Option Graph)
        → get j d.graphs ≡ o
        → live_at g.namespace o ≡ true
        → (i == j) ≡ false
        → IsClaimed (claim i g.namespace (replaced j o d))
    unfolding release_namespace
    replaced-claim j none found live other = cc live
    replaced-claim j (some owner) found live other =
        let here : owner.namespace ≡ g.namespace =
          ground (arith, live, string_eq.beq_iff owner.namespace g.namespace) in
        let on : owner.decomposed ≡ false = ground (arith, live) in
        let free = retired-free d exclusive j owner found on in
        let apart : (j == i) ≡ false =
          ground (arith, other, nat_eq.beq_iff i j, nat_eq.beq_iff j i) in
        ap-claim (sym (released_free j owner.namespace (retired j owner d) free)) (
          claim-IsClaimed (retired j owner d) (retired-IsExclusive d exclusive j owner found)
            (retired-other d exclusive j owner found i apart on ∙ new)
            (ap (λ n. get n (retired j owner d).namespace_graphs) (sym here) ∙ free))
      where
        ap-claim :
            {d e : Domain}
            → d ≡ e
            → IsClaimed (claim i g.namespace d)
            → IsClaimed (claim i g.namespace e)
        ap-claim same c = subst (λ x. IsClaimed (claim i g.namespace x)) same c

    acquired_valid-Acquires :
        (replace_existed : Bool) (o : Option ℕ)
        → get g.namespace d.namespace_graphs ≡ o
        → Acquires (acquired_from o i g.namespace replace_existed d)
    unfolding release_namespace
    acquired_valid-Acquires replace_existed none free = claim-IsClaimed d exclusive new free
    acquired_valid-Acquires replace_existed (some j) taken =
        let other = not_mine j taken in
        rw (other) (
          if_cases Acquires (not replace_existed) (d, raise value_error) _ (λ refused. exclusive)
            (λ allowed. replaced-claim j (get j d.graphs) refl (live_owner j taken) other))

    acquire_namespace-Acquires :
        (replace_existed : Bool) → Acquires (acquire_namespace i g.namespace replace_existed d)
    unfolding acquire_namespace
    acquire_namespace-Acquires replace_existed = go (validate_namespace g.namespace)
      where
        go : (v : Result (Unit {0})) → Acquires (acquired_valid v i g.namespace replace_existed d)
        go (raise x) = exclusive
        go (ok u) =
            acquired_valid-Acquires replace_existed (get g.namespace d.namespace_graphs) refl

-- The domains that constructions and decompositions lead to; a new graph is a new object.
pub data Reach : Domain → Type 0 where
  empty : Reach empty_domain
  constructs :
      (registered : Result (Unit {0})) (i : ℕ) (g : Graph) (exist_ok : Bool) {d : Domain}
      → Reach d
      → get i d.graphs ≡ none
      → Reach (construct registered i g exist_ok d).0
  decomposes : (i : ℕ) {d : Domain} → Reach d → Reach (decompose_graph i d)

empty-IsExclusive : IsExclusive empty_domain
unfolding get
empty-IsExclusive namespace i = refl

created-IsExclusive :
    (i : ℕ) (g : Graph) (d : Domain)
    → IsExclusive d
    → get i d.graphs ≡ none
    → IsExclusive (record d { graphs = put i (new_graph i g) d.graphs })
created-IsExclusive i g d exclusive fresh namespace j =
    rw (get-put i j (new_graph i g) d.graphs)
      (ground (arith, fresh, exclusive namespace j, nat_eq.beq_iff i j))

decomposed-IsExclusive :
    (i : ℕ) (d : Domain) (o : Option Graph)
    → get i d.graphs ≡ o
    → IsExclusive d
    → IsExclusive (decomposed_if i o d)
decomposed-IsExclusive i d none found exclusive = exclusive
decomposed-IsExclusive i d (some g) found exclusive = retired-IsExclusive d exclusive i g found

-- In every domain that constructions and decompositions of graphs lead to, with replacement or without,
-- with success or an error at any point, a graph owns a namespace exactly if it is live and the
-- namespace is its own; so no two live graphs share one.
pub Reach-IsExclusive : {d : Domain} → Reach d → IsExclusive d
unfolding construct decompose_graph
Reach-IsExclusive empty = empty-IsExclusive
Reach-IsExclusive (constructs registered i g exist_ok {d} reach fresh) =
    listening-IsExclusive i g registered _ (
      acquire_namespace-Acquires i g (record d { graphs = put i (new_graph i g) d.graphs })
        (created-IsExclusive i g d (Reach-IsExclusive reach) fresh)
        (get-put i i (new_graph i g) d.graphs ∙ simp (eq_self i)) exist_ok)
Reach-IsExclusive (decomposes i {d} reach) =
    decomposed-IsExclusive i d (get i d.graphs) refl (Reach-IsExclusive reach)
