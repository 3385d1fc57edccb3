-- ===== src/Graph/Restore/RoundTrip.antt =====
-- A context restored from its own checkpoints (source/apixis/core/graph/node_graph.py).
use apixis.Base.{
  ℕ, zero, suc, ◌+◌, String, true, false, List, [], ◌∷◌, ◌++◌, some, Result, ok, ◌>>=◌, length,
  length-append, map, All, ◌==◌, string_eq, eq_self, ◌≡◌, refl, ap, sym, ◌∙◌, subst, arith,
}
use apixis.Base.Int.{ℤ, negsuc}
use apixis.Graph.State.{State, copy_state}
use apixis.Graph.Context.{
  GraphContext, Snapshot, World, is_running, copy_snapshot, fresh, nth, take_a_snapshot,
}
use apixis.Graph.Runtime.{NodeGraph}
use apixis.Graph.Restore.{
  context, validate_snapshot, validate_all, stored, index_in, take, with_selected, history_at,
  history_of, last_of, restored, restore_context,
}

nth-map :
    {X Y : Type 0} (f : X → Y) (n : ℕ) (xs : List X) (x : X)
    → nth n xs ≡ some x
    → nth n (map f xs) ≡ some (f x)
nth-map f n [] x h = cc h
nth-map f zero (y ∷ ys) x h = ap some (ap f (some_injective h))
  where
    some_injective : some y ≡ some x → y ≡ x
    some_injective e = cc e
nth-map f (suc n) (y ∷ ys) x h = nth-map f n ys x h

take-map : {X Y : Type 0} (f : X → Y) (n : ℕ) (xs : List X) → take n (map f xs) ≡ map f (take n xs)
take-map f zero xs = refl
take-map f (suc n) [] = refl
take-map f (suc n) (x ∷ xs) = ap (λ ys. f x ∷ ys) (take-map f n xs)

map-snoc :
    {X Y : Type 0} (f : X → Y) (xs : List X) (x : X) → map f (xs ++ x ∷ []) ≡ map f xs ++ f x ∷ []
map-snoc f [] x = refl
map-snoc f (y ∷ ys) x = ap (λ zs. f y ∷ zs) (map-snoc f ys x)

last_of-snoc : {X : Type 0} (x y : X) (xs : List X) → last_of x (xs ++ y ∷ []) ≡ y
last_of-snoc x y [] = refl
last_of-snoc x y (z ∷ zs) = last_of-snoc z y zs

-- A stored snapshot is the valid dict of itself.
validate_snapshot-stored :
    {A : Type 0} (own : String) (s : Snapshot A)
    → s.graph_id ≡ own
    → validate_snapshot own (stored s) ≡ ok s
unfolding validate_snapshot
validate_snapshot-stored own s h =
    let same : (s.graph_id == own) ≡ true = ap (λ g. g == own) h ∙ eq_self own in rw (same) refl

validate_all-stored :
    {A : Type 0} (own : String) (ss : List (Snapshot A))
    → All (λ s. s.graph_id ≡ own) ss
    → validate_all own (map stored ss) ≡ ok ss
validate_all-stored own [] h = refl
validate_all-stored own (s ∷ ss) h =
    rw (validate_snapshot-stored own s h.0, validate_all-stored own ss h.1) refl

All-take :
    {A : Type 0} (P : A → Type 0) (n : ℕ) (x : A) (xs : List A)
    → All P xs
    → nth n xs ≡ some x
    → All P (take n xs ++ x ∷ [])
All-take P n x [] h k = cc k
All-take P zero x (y ∷ ys) h k = (subst P (some_injective k) h.0, tt)
  where
    some_injective : some y ≡ some x → y ≡ x
    some_injective e = cc e
All-take P (suc n) x (y ∷ ys) h k = (h.0, All-take P n x ys h.1 k)

module _ {A R : Type 0} (deepcopy : A → A) (own : String) where
  -- The pending context at the snapshot `s` with the history `ss`, the values copied.
  abbrev pub at_snapshot : List (Snapshot A) → Snapshot A → GraphContext A R
  at_snapshot ss s = record (fresh own) {
    state = copy_state deepcopy (copy_state deepcopy s.state []) [];
    target_node_name = s.target_node_name;
    steps = s.steps;
    context_snapshot = map (copy_snapshot deepcopy) (ss ++ s ∷ []);
  }

  restored-snoc :
      (ss : List (Snapshot A)) (s : Snapshot A)
      → restored {R = R} deepcopy own (ss ++ s ∷ []) ≡ ok (at_snapshot ss s)
  restored-snoc [] s = refl
  restored-snoc (t ∷ ts) s =
      ap
        (λ last. ok (record (fresh own) {
          state = copy_state deepcopy (copy_snapshot deepcopy last).state [];
          target_node_name = last.target_node_name;
          steps = last.steps;
          context_snapshot = map (copy_snapshot deepcopy) (t ∷ ts ++ s ∷ []);
        }))
        (last_of-snoc t s ts)

length-map : {X Y : Type 0} (f : X → Y) (xs : List X) → length (map f xs) ≡ length xs
length-map f [] = refl
length-map f (x ∷ xs) = ap suc (length-map f xs)

history_of-stored :
    {A : Type 0} (ss : List (Snapshot A)) (version : ℤ) (i : ℕ) (s : Snapshot A)
    → index_in (length ss) version ≡ ok i
    → nth i ss ≡ some s
    → history_of (map stored ss) version ≡ ok (map stored (take i ss ++ s ∷ []))
history_of-stored [] version i s h k = cc k
history_of-stored (x ∷ xs) version i s h k =
    ap (λ n. index_in (suc n) version >>= history_at (map stored (x ∷ xs))) (length-map stored xs)
    ∙ ap (λ r. r >>= history_at (map stored (x ∷ xs))) h
    ∙ ap (with_selected (take i (map stored (x ∷ xs)))) (nth-map stored i (x ∷ xs) s k)
    ∙ ap (λ p. ok (p ++ stored s ∷ [])) (take-map stored i (x ∷ xs))
    ∙ ap ok (sym (map-snoc stored (take i (x ∷ xs)) s))

module _ {A R : Type 0} (deepcopy : A → A) (g : NodeGraph) (live : g.decomposed ≡ false) where
  -- On a live graph a context of the graph with checkpoints of the graph, restored at an index in
  -- range, gives a pending context at the selected checkpoint: its state, target and steps, with the
  -- history up to that checkpoint, all values copied.
  pub restore_context_lem :
      (c : GraphContext A R) (version : ℤ) (i : ℕ) (s : Snapshot A)
      → c.graph_id ≡ g.graph_id
      → All (λ s. s.graph_id ≡ g.graph_id) c.context_snapshot
      → index_in (length c.context_snapshot) version ≡ ok i
      → nth i c.context_snapshot ≡ some s
      → restore_context deepcopy g (context c) version
        ≡ ok (at_snapshot {R = R} deepcopy g.graph_id (take i c.context_snapshot) s)
  unfolding restore_context
  restore_context_lem c version i s mine own h k =
      let same : (c.graph_id == g.graph_id) ≡ true =
        ap (λ x. x == g.graph_id) mine ∙ eq_self g.graph_id in
      rw (live, same)
        (ap (λ r. r >>= validate_all g.graph_id >>= restored deepcopy g.graph_id)
            (history_of-stored c.context_snapshot version i s h k)
          ∙ ap (λ r. r >>= restored deepcopy g.graph_id)
              (validate_all-stored g.graph_id (take i c.context_snapshot ++ s ∷ [])
                (All-take (λ s. s.graph_id ≡ g.graph_id) i s c.context_snapshot own k))
          ∙ restored-snoc deepcopy g.graph_id (take i c.context_snapshot) s)

copy_state-same :
    {A : Type 0} (deepcopy : A → A)
    → ((x : A) → deepcopy x ≡ x)
    → (s : State A) → copy_state deepcopy s [] ≡ s
unfolding copy_state
copy_state-same deepcopy same [] = refl
copy_state-same deepcopy same ((k, v) ∷ s) =
    ap (λ x. (k, x) ∷ copy_state deepcopy s []) (same v)
    ∙ ap (λ t. (k, v) ∷ t) (copy_state-same deepcopy same s)

take-snoc : {X : Type 0} (xs : List X) (x : X) → take (length xs) (xs ++ x ∷ []) ≡ xs
take-snoc [] x = refl
take-snoc (y ∷ ys) x = ap (λ zs. y ∷ zs) (take-snoc ys x)

nth-snoc : {X : Type 0} (xs : List X) (x : X) → nth (length xs) (xs ++ x ∷ []) ≡ some x
nth-snoc [] x = refl
nth-snoc (y ∷ ys) x = nth-snoc ys x

All-snoc :
    {X : Type 0} (P : X → Type 0) (xs : List X) (x : X) → All P xs → P x → All P (xs ++ x ∷ [])
All-snoc P [] x h k = (k, tt)
All-snoc P (y ∷ ys) x h k = (h.0, All-snoc P ys x h.1 k)

-- The checkpoint that a context takes of itself, values as they are.
abbrev pub checkpoint_of : {A R : Type 0} → ℕ → GraphContext A R → Snapshot A
checkpoint_of now c = record {
  timestamp = now;
  state = c.state;
  target_node_name = c.target_node_name;
  steps = c.steps;
  graph_id = c.graph_id;
}

index_of_last :
    {X : Type 0} (xs : List X) (x : X)
    → index_in (length (xs ++ x ∷ [])) (negsuc 0) ≡ ok (length xs)
index_of_last xs x = go (length (xs ++ x ∷ [])) (length-append xs (x ∷ []))
  where
    go : (n : ℕ) → n ≡ length xs + 1 → index_in n (negsuc 0) ≡ ok (length xs)
    go n e = ground (arith, e)

module _ {A : Type 0} (deepcopy : A → A) (same : (x : A) → deepcopy x ≡ x) where
  map-copy_snapshot : (ss : List (Snapshot A)) → map (copy_snapshot deepcopy) ss ≡ ss
  map-copy_snapshot [] = refl
  map-copy_snapshot (s ∷ ss) =
      ap (λ st. record s { state = st } ∷ map (copy_snapshot deepcopy) ss)
        (copy_state-same deepcopy same s.state)
      ∙ ap (λ ts. s ∷ ts) (map-copy_snapshot ss)

-- A restored run of the graph at the moment of the checkpoint.
abbrev pub resumed : {A R : Type 0} → NodeGraph → GraphContext A R → ℕ → GraphContext A R
resumed g c now = record (fresh g.graph_id) {
  state = c.state;
  target_node_name = c.target_node_name;
  steps = c.steps;
  context_snapshot = c.context_snapshot ++ checkpoint_of now c ∷ [];
}

module _ {A R : Type 0} (deepcopy : A → A) (same : (x : A) → deepcopy x ≡ x) where
  -- Where a deep copy equals its original: a running context of a live graph, whose checkpoints are
  -- the graph's, takes a checkpoint and is restored at its last one. The result is a pending context
  -- with the state, the target and the steps of that moment, and with the whole history.
  pub restore_context-take_a_snapshot :
      (g : NodeGraph) (c : GraphContext A R) (r : R) (now : ℕ)
      → g.decomposed ≡ false
      → is_running c.status ≡ true
      → c.graph_id ≡ g.graph_id
      → All (λ s. s.graph_id ≡ g.graph_id) c.context_snapshot
      → restore_context deepcopy g (context (take_a_snapshot deepcopy now (c, r)).0.0) (negsuc 0)
        ≡ ok (resumed g c now)
  unfolding take_a_snapshot
  restore_context-take_a_snapshot g c r now live active mine own =
      ap
        (λ (w : World A R × Result (Unit {0})).
          restore_context deepcopy g (context w.0.0) (negsuc 0))
        taken
      ∙ restore_context_lem deepcopy g live (with_state c.state) (negsuc 0)
          (length c.context_snapshot) (checkpoint_of now c) mine
          (All-snoc _ c.context_snapshot (checkpoint_of now c) own mine)
          (index_of_last c.context_snapshot (checkpoint_of now c))
          (nth-snoc c.context_snapshot (checkpoint_of now c))
      ∙ ap (λ ss. ok (at_last (copy_state deepcopy (copy_state deepcopy c.state []) []) ss))
          all_copied
      ∙ ap (λ st. ok (at_last st (c.context_snapshot ++ checkpoint_of now c ∷ []))) state_copied
    where
      at_last : State A → List (Snapshot A) → GraphContext A R
      at_last st ss = record (resumed g c now) { state = st; context_snapshot = ss }

      state_copied : copy_state deepcopy (copy_state deepcopy c.state []) [] ≡ c.state
      state_copied =
          ap (λ st. copy_state deepcopy st []) (copy_state-same deepcopy same c.state)
          ∙ copy_state-same deepcopy same c.state

      all_copied :
          map (copy_snapshot deepcopy) (
            take (length c.context_snapshot) (c.context_snapshot ++ checkpoint_of now c ∷ [])
            ++ checkpoint_of now c ∷ [])
          ≡ c.context_snapshot ++ checkpoint_of now c ∷ []
      all_copied =
          map-copy_snapshot deepcopy same _
          ∙ ap (λ ss. ss ++ checkpoint_of now c ∷ [])
              (take-snoc c.context_snapshot (checkpoint_of now c))

      with_state : State A → GraphContext A R
      with_state st = record c {
        context_snapshot = c.context_snapshot ++ record (checkpoint_of now c) { state = st } ∷ [];
      }

      taken : take_a_snapshot deepcopy now (c, r) ≡ ((with_state c.state, r), ok tt)
      taken =
          rw (take_a_snapshot, active)
            (ap (λ st. ((with_state st, r), ok tt)) (copy_state-same deepcopy same c.state))
