-- ===== src/Graph/Invoke/Open.antt =====
-- While a run goes on, its completion has no result (source/apixis/core/graph/node_graph.py).
use apixis.Base.{
  Bool, true, false, List, [], ◌∷◌, Option, none, some, is_some, ◌≡◌, refl, sym, subst, inl, inr,
  nat_eq, string_eq,
}
use apixis.Graph.Context.{
  Status, pending, running, failed, aborted, finished, Completion, waiting, cancelled, resolved,
  raised, World, is_running, is_terminal, settle,
}
use apixis.Graph.Context.Life.{
  Operation, View, view, Changes, starts, gives_up, ends, stops, Live, perform, run, Moves,
}
use apixis.Graph.Context.Life.Steps.{Live-Moves, perform-Moves}
use apixis.Graph.Context.Life.Ends.{CallsOnce}

-- A run that is not over has no result yet: it waits, or nobody waits for it any more.
abbrev pub is_open : {A : Type 0} → Option (Completion A) → Bool
is_open none = true
is_open (some waiting) = true
is_open (some cancelled) = true
is_open _ = false

abbrev pub Open : {A R : Type 0} → View A R → Type 0
Open (running, c, f, r) = is_open c ≡ true
Open _ = Unit

pub Open-ended :
    {A R : Type 0} (v : View A R) → Open v → is_open v.1 ≡ false → is_running v.0 ≡ false
Open-ended (pending, c, f, r) h k = refl
Open-ended (running, c, f, r) h k = cc (h, k)
Open-ended (failed, c, f, r) h k = refl
Open-ended (aborted, c, f, r) h k = refl
Open-ended (finished, c, f, r) h k = refl

module _ {A R : Type 0} where
  terminal_Open :
      (s : Status) (c : Option (Completion A)) (f : Option (R → R)) (r : R)
      → is_terminal s ≡ true
      → Open (s, c, f, r)
  terminal_Open pending c f r h = tt
  terminal_Open running c f r h = cc h
  terminal_Open failed c f r h = tt
  terminal_Open aborted c f r h = tt
  terminal_Open finished c f r h = tt

  Open-Changes : (v u : View A R) → Changes v u → Open v → Open u
  Open-Changes _ _ (starts f r) h = refl
  Open-Changes _ _ (gives_up s r e) h = terminal_Open s none none r e
  Open-Changes _ _ (ends s o c f r e d) h = terminal_Open s (some (settle o c)) none _ e
  Open-Changes _ _ (stops waiting f r) h = refl
  Open-Changes _ _ (stops cancelled f r) h = refl
  Open-Changes _ _ (stops (resolved s) f r) h = h
  Open-Changes _ _ (stops (raised e) f r) h = h

  pub run-Open :
      (deepcopy : A → A) (ops : List (Operation A R)) (w : World A R)
      → Live (view w)
      → Open (view w)
      → Open (view (run deepcopy ops w))
  unfolding run Moves
  run-Open deepcopy [] w l h = h
  run-Open deepcopy (op ∷ ops) w l h =
      let moved = perform-Moves deepcopy op w l in
      run-Open deepcopy ops (perform deepcopy op w)
        (Live-Moves (view w) (view (perform deepcopy op w)) moved l) (next moved)
    where
      next : Moves (view w) (view (perform deepcopy op w)) → Open (view (perform deepcopy op w))
      next (inl same) = subst Open (sym same) h
      next (inr change) = Open-Changes (view w) (view (perform deepcopy op w)) change h

  pub CallsOnce-is_some : (f : R → R) (r : R) (v : View A R) → CallsOnce f r v → is_some v.1 ≡ true
  CallsOnce-is_some f r (pending, c, g, x) h = absurd h
  CallsOnce-is_some f r (running, c, g, x) h = h.0
  CallsOnce-is_some f r (failed, some c, g, x) h = refl
  CallsOnce-is_some f r (aborted, some c, g, x) h = refl
  CallsOnce-is_some f r (finished, some c, g, x) h = refl
  CallsOnce-is_some f r (failed, none, g, x) h = cc (h.0)
  CallsOnce-is_some f r (aborted, none, g, x) h = cc (h.0)
  CallsOnce-is_some f r (finished, none, g, x) h = cc (h.0)
