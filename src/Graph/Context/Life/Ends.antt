-- ===== src/Graph/Context/Life/Ends.antt =====
-- The end of a run of a `GraphContext` (source/apixis/core/graph/context/graph_context.py).
use apixis.Base.{
  ℕ, String, true, ◌&&◌, List, [], ◌∷◌, Option, none, some, is_some, ◌≡◌, refl, ap, subst, sym, inl,
  inr, ◌∙◌,
}
use apixis.Graph.State.{State}
use apixis.Graph.Commands.{Target}
use apixis.Graph.Context.{
  Status, pending, running, failed, aborted, finished, Snapshot, Completion, GraphContext, World,
  is_terminal, is_done, settle, transition_to, bind,
}
use apixis.Graph.Context.Life.{
  Operation, View, view, call, Changes, starts, gives_up, ends, stops, settled, Live, perform, run,
  Moves,
}
use apixis.Graph.Context.Life.Steps.{context, settle_lem, Live-Moves, perform-Moves}

module _ {A R : Type 0} where
  run-ended :
      (deepcopy : A → A) (ops : List (Operation A R)) (w : World A R)
      → Live (view w)
      → is_terminal w.0.status ≡ true
      → view (run deepcopy ops w) ≡ view w
  unfolding run Moves
  run-ended deepcopy [] w live end = refl
  run-ended deepcopy (op ∷ ops) w live end =
      run-ended deepcopy ops (perform deepcopy op w)
        (Live-Moves (view w) _ (perform-Moves deepcopy op w live) live)
        (ap (λ v. is_terminal v.0) same ∙ end)
      ∙ same
    where
      still : (v u : View A R) → Changes v u → is_terminal v.0 ≡ true → u ≡ v
      still _ _ (starts f r) h = cc h
      still _ _ (gives_up s r e) h = cc h
      still _ _ (ends s o c f r e d) h = cc h
      still _ _ (stops c f r) h = cc h

      moved : (u : View A R) → Moves (view w) u → u ≡ view w
      moved u (inl e) = e
      moved u (inr change) = still (view w) u change end

      same : view (perform deepcopy op w) ≡ view w
      same = moved _ (perform-Moves deepcopy op w live)

  run-Live :
      (deepcopy : A → A) (ops : List (Operation A R)) (w : World A R)
      → Live (view w)
      → Live (view (run deepcopy ops w))
  unfolding run
  run-Live deepcopy [] w live = live
  run-Live deepcopy (op ∷ ops) w live =
      run-Live deepcopy ops (perform deepcopy op w)
        (Live-Moves (view w) _ (perform-Moves deepcopy op w live) live)

  new-Live :
      (v : View A R) (f : Option (R → R)) (r : R) → v ≡ (pending, none, f, r) → f ≡ none → Live v
  new-Live v f r e none_set = subst Live (sym e) (refl, none_set)

  -- A context as it is made, pending and without a future and a callback, after any operations: once it
  -- has ended, it keeps its status, its future and what its callback worked on, whatever operations
  -- follow, and calls no callback again.
  pub run-terminal :
      (deepcopy : A → A) (before after : List (Operation A R)) (w : World A R)
      → view w ≡ (pending, none, none, w.1)
      → is_terminal (run deepcopy before w).0.status ≡ true
      → view (run deepcopy after (run deepcopy before w)) ≡ view (run deepcopy before w)
  run-terminal deepcopy before after w new end =
      run-ended deepcopy after (run deepcopy before w)
        (run-Live deepcopy before w (new-Live (view w) none w.1 new refl)) end

  -- A run that calls `f` at its end: while it runs, `f` has not been called; when it has ended, `f`
  -- has been called once, and the future is done.
  abbrev pub CallsOnce : (R → R) → R → View A R → Type 0
  CallsOnce f r (pending, c, g, r') = ⊥
  CallsOnce f r (running, c, g, r') = (is_some c ≡ true) × (g ≡ some f) × (r' ≡ r)
  CallsOnce f r (s, c, g, r') = ((is_some c && settled c) ≡ true) × (g ≡ none) × (r' ≡ f r)

  CallsOnce-ended :
      (f : R → R) (r : R) (s : Status) (c : Completion A) (r' : R)
      → is_terminal s ≡ true
      → is_done c ≡ true
      → r' ≡ f r
      → CallsOnce f r (s, some c, none, r')
  CallsOnce-ended f r pending c r' end h k = cc end
  CallsOnce-ended f r running c r' end h k = cc end
  CallsOnce-ended f r failed c r' end h k = (h, refl, k)
  CallsOnce-ended f r aborted c r' end h k = (h, refl, k)
  CallsOnce-ended f r finished c r' end h k = (h, refl, k)

  CallsOnce-Changes :
      (f : R → R) (r : R) (v u : View A R) → Changes v u → CallsOnce f r v → CallsOnce f r u
  CallsOnce-Changes f r _ _ (starts g r') h = absurd h
  CallsOnce-Changes f r _ _ (gives_up s r' e) h = absurd h
  CallsOnce-Changes f r _ _ (ends s o c g r' e d) h =
      CallsOnce-ended f r s (settle o c) (call g r') e (settle_lem o c d)
        (ap (λ x. call x r') h.1 ∙ ap f h.2)
  CallsOnce-Changes f r _ _ (stops c g r') h = (refl, h.1, h.2)

  pub CallsOnce-Live : (f : R → R) (r : R) (v : View A R) → CallsOnce f r v → Live v
  CallsOnce-Live f r (pending, c, g, x) h = absurd h
  CallsOnce-Live f r (running, c, g, x) h = h.0
  CallsOnce-Live f r (failed, some c, g, x) h = (h.0, h.1)
  CallsOnce-Live f r (aborted, some c, g, x) h = (h.0, h.1)
  CallsOnce-Live f r (finished, some c, g, x) h = (h.0, h.1)
  CallsOnce-Live f r (failed, none, g, x) h = cc (h.0)
  CallsOnce-Live f r (aborted, none, g, x) h = cc (h.0)
  CallsOnce-Live f r (finished, none, g, x) h = cc (h.0)

  pub run-CallsOnce :
      (deepcopy : A → A) (f : R → R) (r : R) (ops : List (Operation A R)) (w : World A R)
      → CallsOnce f r (view w)
      → CallsOnce f r (view (run deepcopy ops w))
  unfolding run Moves
  run-CallsOnce deepcopy f r [] w h = h
  run-CallsOnce deepcopy f r (op ∷ ops) w h =
      run-CallsOnce deepcopy f r ops (perform deepcopy op w)
        (next (perform-Moves deepcopy op w (CallsOnce-Live f r (view w) h)))
    where
      next :
          Moves (view w) (view (perform deepcopy op w))
          → CallsOnce f r (view (perform deepcopy op w))
      next (inl same) = subst (CallsOnce f r) (sym same) h
      next (inr change) = CallsOnce-Changes f r (view w) (view (perform deepcopy op w)) change h

  -- A pending context that is bound with the callback `f`, whatever operations follow: while it is
  -- running, `f` has not been called; when it has ended, `f` has been called exactly once and the
  -- future is done. It is never pending again.
  pub bind-CallsOnce :
      (deepcopy : A → A) (run_id : String) (f : R → R) (ops : List (Operation A R))
      (c : GraphContext A R) (r : R)
      → c.status ≡ pending
      → CallsOnce f r (view (run deepcopy ops (bind run_id (some f) (c, r)).0))
  unfolding bind transition_to
  bind-CallsOnce deepcopy run_id f ops c r h =
      run-CallsOnce deepcopy f r ops (bind run_id (some f) (c, r)).0 (
        starting c.graph_id c.run_id c.state c.target_node_name c.steps c.context_snapshot c.status
          c.completion c.on_terminal h)
    where
      starting :
          (g : String) (i : Option String) (st : State A) (t : Target) (n : ℕ)
          (ss : List (Snapshot A)) (s : Status) (d : Option (Completion A)) (e : Option (R → R))
          → s ≡ pending
          → CallsOnce f r (view (bind run_id (some f) (context g i st t n ss d s e, r)).0)
      starting g i st t n ss pending d none k = (refl, refl, refl)
      starting g i st t n ss pending d (some e) k = (refl, refl, refl)
      starting g i st t n ss running d e k = cc k
      starting g i st t n ss failed d e k = cc k
      starting g i st t n ss aborted d e k = cc k
      starting g i st t n ss finished d e k = cc k
