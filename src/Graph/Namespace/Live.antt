-- ===== src/Graph/Namespace/Live.antt =====
-- Live graphs as owners of their namespaces (source/apixis/core/graph/utils/namespace.py), and the
-- retirement of an owner.
use apixis.Base.{
  ℕ, String, Bool, true, false, not, ◌&&◌, [], ◌≡◌, refl, ap, ◌∙◌, sym, subst, Option, none, some,
  inl, inr, arith, if◌then◌else◌, ◌==◌, string_eq, nat_eq, eq_self, Bool-cases,
}
use apixis.Base.Dict.{get, put, del, get-put, get-del}
use apixis.Graph.Namespace.{Graph, Domain, is_owner, released, retired}

abbrev pub live_at : String → Option Graph → Bool
live_at namespace none = false
live_at namespace (some g) = not g.decomposed && g.namespace == namespace

-- A graph owns a namespace exactly if it is live and the namespace is its own. So no two live graphs
-- share one.
abbrev pub IsExclusive : Domain → Type 0
IsExclusive d =
    (namespace : String) (i : ℕ)
    → is_owner i (get namespace d.namespace_graphs) ≡ live_at namespace (get i d.graphs)

abbrev pub empty_domain : Domain
empty_domain = record { namespace_graphs = []; graphs = [] }

pub owner_some : (i : ℕ) (o : Option ℕ) → is_owner i o ≡ true → o ≡ some i
owner_some i none h = cc h
owner_some i (some j) h = ground (arith, h, nat_eq.beq_iff i j)

-- The owner of a namespace retires.
module _ (d : Domain) (exclusive : IsExclusive d) (i : ℕ) (g : Graph)
    (found : get i d.graphs ≡ some g) where
  abbrev ended : Domain
  ended = record d {
    namespace_graphs = del g.namespace d.namespace_graphs;
    graphs = put i (record g { decomposed = true }) d.graphs;
  }

  pub own : g.decomposed ≡ false → is_owner i (get g.namespace d.namespace_graphs) ≡ true
  own live = exclusive g.namespace i ∙ rw (found) (ground (arith, live, eq_self g.namespace))

  retired_live : g.decomposed ≡ false → retired i g d ≡ ended
  retired_live live = rw (live) (
      ap
        (λ b.
          if b
          then ended
          else record d { graphs = put i (record g { decomposed = true }) d.graphs })
        (own live))

  ended-IsExclusive : g.decomposed ≡ false → IsExclusive ended
  ended-IsExclusive live namespace j =
      let owned = owner_some i (get g.namespace d.namespace_graphs) (own live) in
      rw
        (
          get-del g.namespace namespace d.namespace_graphs,
          get-put i j (record g { decomposed = true }) d.graphs,
        )
        (ground (
          arith,
          live,
          found,
          owned,
          exclusive namespace j,
          exclusive namespace i,
          string_eq.beq_iff g.namespace namespace,
          nat_eq.beq_iff i j,
          nat_eq.beq_iff j i,
        ))

  pub retired-IsExclusive : IsExclusive (retired i g d)
  retired-IsExclusive = elim (Bool-cases g.decomposed) [
    | inl over ↦ rw (over) exclusive
    | inr live ↦ subst IsExclusive (sym (retired_live live)) (ended-IsExclusive live)
  ]

  -- Its namespace is free afterwards, and no other graph has changed.
  pub retired-free : g.decomposed ≡ false → get g.namespace (retired i g d).namespace_graphs ≡ none
  retired-free live =
      ap (λ e. get g.namespace e.namespace_graphs) (retired_live live)
      ∙ get-del g.namespace g.namespace d.namespace_graphs
      ∙ simp (eq_self g.namespace)

  pub retired-other :
      (j : ℕ)
      → (i == j) ≡ false
      → g.decomposed ≡ false
      → get j (retired i g d).graphs ≡ get j d.graphs
  retired-other j other live =
      ap (λ e. get j e.graphs) (retired_live live)
      ∙ get-put i j (record g { decomposed = true }) d.graphs
      ∙ rw (other) refl

pub released_free :
    (i : ℕ) (namespace : String) (d : Domain)
    → get namespace d.namespace_graphs ≡ none
    → released i namespace d ≡ d
released_free i namespace d free = rw (free) refl
