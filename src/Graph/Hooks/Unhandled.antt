-- ===== src/Graph/Hooks/Unhandled.antt =====
-- An interruption that no hook of a user has seen (`require_interrupted_hook` of
-- source/apixis/core/graph/node_graph.py, on the event that `interrupt` posts).
use apixis.Base.{
  ℕ, String, Bool, true, false, not, List, [], ◌∷◌, ◌++◌, Option, none, some, Result, ok, raise,
  ◌>>=◌, reject, >>=-eq-ok, runtime_error, block_hook_not_registered, ◌==◌, string_eq, nat_eq,
  eq_self, eq_true, any, contains, is_some, Bool-cases, inl, inr, ◌≡◌, refl, sym, ap, arith, ◌∙◌,
  subst,
}
use apixis.Base.Dict.{Dict, get}
use apixis.Graph.Context.{is_running}
use apixis.Graph.Namespace.{Graph, get_graph_namespace, get_graph_interrupted_name, by_name}
use apixis.Graph.Block.{new_block}
use apixis.Graph.Runtime.{Runtime, is_active_context}
use apixis.Graph.Runtime.Managed.{Attempt, Managed}
use apixis.Graph.Hooks.{BlockEvent, same_run, runs_block, is_active_block, require_interrupted_hook}
use apixis.Graph.Current.{new_interruption}

same_run_self : (o : Option String) → same_run o o ≡ true
same_run_self none = refl
same_run_self (some s) = eq_self s

any-contains :
    (p : ℕ → Bool) (i : ℕ) (ids : List ℕ) → p i ≡ true → contains i ids ≡ true → any p ids ≡ true
any-contains p i [] h k = cc k
any-contains p i (j ∷ ids) h k = elim (Bool-cases (j == i)) [
  | inl e ↦ ground (arith, ap p (eq_true j i e), h)
  | inr e ↦ ground (arith, e, any-contains p i ids h)
]

named_event :
    {B : Type 0} (q : Result String) (x e : BlockEvent B) (name : String)
    → ◌>>=◌ {B = String × BlockEvent B} q (λ n. ok (n, x)) ≡ ok (name, e)
    → x ≡ e
named_event (ok n) x e name h = cc h
named_event (raise y) x e name h = cc h

module _ {A B : Type 0} where
  -- The event of an interruption is of the run of its context, and new.
  abbrev IsOf : BlockEvent B → Attempt A → Type 0
  IsOf e c = (e.graph_id ≡ c.graph_id) × (e.run_id ≡ c.run_id) × (e.seen ≡ [])

  new_interruption-IsOf :
      (graphs : Dict ℕ Graph) (owners : Dict String ℕ) (c : Attempt A) (v : Option (Attempt A))
      (name : String) (e : BlockEvent B)
      → new_interruption graphs owners (some c) v ≡ ok (name, e)
      → IsOf e c
  unfolding new_interruption
  new_interruption-IsOf graphs owners c v name e h =
      let (u, runs, h1) = >>=-eq-ok (reject (not (is_running c.status)) runtime_error) _ h in
      let (namespace, owned, h2) = >>=-eq-ok (get_graph_namespace graphs c.graph_id owners) _ h1 in
      let (w, waited, h3) = >>=-eq-ok (reject (not (is_some c.completion)) runtime_error) _ h2 in
      ground (
        arith,
        named_event (get_graph_interrupted_name owners (by_name namespace) true)
            (record { block = new_block; graph_id = c.graph_id; run_id = c.run_id; seen = [] }) e
            name h3,
      )

  active_of :
      (rt : Runtime A) (i : ℕ) (c : Attempt A) (e : BlockEvent B)
      → Managed rt
      → rt.graph.decomposed ≡ false
      → get i rt.store ≡ some c
      → is_running c.status ≡ true
      → IsOf e c
      → is_active_block e rt ≡ true
  unfolding is_active_block is_active_context Managed
  active_of rt i c e m live at runs (same_graph, run, new) = ground (
    arith,
    any-contains (λ j. runs_block e rt j (get j rt.store)) i rt.graph.contexts runs_here listed,
    eq_self rt.graph.graph_id,
    same_graph,
    own,
  )
    where
      listed : contains i rt.graph.contexts ≡ true
      listed = (m.tracked i c at).1 ∙ runs

      own : c.graph_id ≡ rt.graph.graph_id
      own = m.owned i c at runs

      same_id : (c.graph_id == rt.graph.graph_id) ≡ true
      same_id = ap (λ s. s == rt.graph.graph_id) own ∙ eq_self rt.graph.graph_id

      same : same_run c.run_id e.run_id ≡ true
      same = ap (same_run c.run_id) run ∙ same_run_self c.run_id

      runs_here : runs_block e rt i (get i rt.store) ≡ true
      runs_here =
          subst (λ o. runs_block e rt i o ≡ true) (sym at)
            (ground (arith, same, live, same_id, listed, runs))

  -- An interruption of a run of a live graph, in a state that its operations lead to, whose event comes
  -- to the last handler before any hook has seen it. Whether the event is as it was posted, or seen by
  -- that handler alone, as it is when its core starts: it raises BlockHookNotRegisteredError.
  pub require_interrupted_hook-unseen :
      (graphs : Dict ℕ Graph) (owners : Dict String ℕ) (rt : Runtime A) (i : ℕ) (c : Attempt A)
      (v : Option (Attempt A)) (handler_name name : String) (e : BlockEvent B)
      → Managed rt
      → rt.graph.decomposed ≡ false
      → get i rt.store ≡ some c
      → is_running c.status ≡ true
      → new_interruption graphs owners (some c) v ≡ ok (name, e)
      → (require_interrupted_hook handler_name (record e { seen = e.seen ++ handler_name ∷ [] }) rt
          ≡ raise block_hook_not_registered)
        × (require_interrupted_hook handler_name e rt ≡ raise block_hook_not_registered)
  unfolding require_interrupted_hook
  require_interrupted_hook-unseen graphs owners rt i c v handler_name name e m live at runs h =
      let of = new_interruption-IsOf graphs owners c v name e h in
      let active = active_of rt i c e m live at runs of in
      let own : (handler_name == handler_name) ≡ true = eq_self handler_name in
      (rw (active, of.2, own) refl, rw (active, of.2) refl)
