-- ===== src/Event/Factory/Reach.antt =====
-- The calls of source/apixis/core/event/factory.py, step by step.
use apixis.Base.{
  ℕ, Bool, true, not, eqb, ◌||◌, Option, none, some, Result, ok, raise, >>=-eq-ok, nat_eq, ◌==◌,
  Bool-cases, inl, inr, if_cases, ◌≡◌, refl, arith,
}
use apixis.Base.Dict.{get, del, get-put}
use apixis.Event.Pipe.{open_pipe, empty_channel}
use apixis.Event.Factory.{
  EventCore, is_started, Factory, imported, Part, choose_core, change_core, changed,
  start_components, start_core_of, is_starting, schedule_start, ensure_started, got, started_with,
  started, run_task, run_start, new_core, build_core, get_core, get_core_from, get_component,
  aget_component, start_core,
}
use apixis.Event.Factory.Writes.{change-IsOnce, new-IsOnce, del-IsOnce, schedule-IsOnce}
use apixis.Event.Factory.Once.{
  FactoryStep, gets, awaits, starts, runs, gives_up, builds, works, FactoryReach, here, next,
  IsOnce, IsFresh, Steady,
}

change-Steady :
    (change : EventCore → EventCore)
    → ((c : EventCore) → (change c).start_task ≡ c.start_task)
    → (k : ℕ) (f : Factory) → IsOnce f
    → Steady f (change_core change k f)
change-Steady change same k f m = go (get k f.cores) refl
  where
    go : (o : Option EventCore) → get k f.cores ≡ o → Steady f (changed change k f o)
    go none h = (m, λ j e. e)
    go (some c) h = (change-IsOnce f k (change c) m c h (same c), λ j e. e)

start_components-start_task :
    (consumer : ℕ) (c : EventCore) → (start_components consumer c).start_task ≡ c.start_task
unfolding start_components
start_components-start_task consumer c = ground arith

start_core_of-Steady :
    (consumer k : ℕ) (f : Factory) → IsOnce f → Steady f (start_core_of consumer k f)
start_core_of-Steady consumer k f m =
    change-Steady (start_components consumer) (start_components-start_task consumer) k f m

run_start-Steady :
    (task consumer : ℕ) (f : Factory) → IsOnce f → Steady f (run_start task consumer f)
unfolding run_start
run_start-Steady task consumer f m = go (get task f.unfinished)
  where
    go : (o : Option ℕ) → Steady f (run_task task consumer f o)
    go none = (m, λ j e. e)
    go (some k) =
        start_core_of-Steady consumer k (record f { unfinished = del task f.unfinished })
          (del-IsOnce f task m)

pub ensure_started-Steady :
    (in_loop : Bool) (task k : ℕ) (f : Factory)
    → IsFresh f task
    → IsOnce f
    → Steady f (ensure_started in_loop task k f)
unfolding ensure_started
ensure_started-Steady in_loop task k f free m = go (get k f.cores) refl
  where
    go : (o : Option EventCore) → get k f.cores ≡ o → Steady f (schedule_start in_loop task k f o)
    go none h = (m, λ j e. e)
    go (some c) h =
        if_cases (λ g. Steady f g) (is_started c || is_starting f c.start_task) _ _
          (λ yes'. (m, λ j e. e))
          (λ idle.
            if_cases (λ g. Steady f g) (not in_loop) _ _ (λ yes'. (m, λ j e. e))
              (λ no'. (schedule-IsOnce f task k c m free h (ground (arith, idle)), λ j e. e)))

pub got-Steady :
    (in_loop : Bool) (task : ℕ) (part : Part) (f : Factory) (r : Result ℕ)
    → IsFresh f task
    → IsOnce f
    → Steady f (got in_loop task part (f, r)).0
unfolding got
got-Steady in_loop task part f (raise e) free m = (m, λ j h. h)
got-Steady in_loop task part f (ok k) free m = ensure_started-Steady in_loop task k f free m

started_with-Steady :
    (consumer : ℕ) (part : Part) (f : Factory) (r : Result ℕ)
    → IsOnce f
    → Steady f (started_with consumer part (f, r)).0
started_with-Steady consumer part f (raise e) m = (m, λ j h. h)
started_with-Steady consumer part f (ok k) m = start_core_of-Steady consumer k f m

started-Steady :
    (consumer : ℕ) (f : Factory) (r : Result ℕ) → IsOnce f → Steady f (started consumer (f, r)).0
started-Steady consumer f (raise e) m = (m, λ j h. h)
started-Steady consumer f (ok k) m = start_core_of-Steady consumer k f m

-- Two startup tasks of one core are one task; a task of `none` is done.
abbrev pub OneTask : ℕ → ℕ → Option ℕ → Option ℕ → Type 0
OneTask t u (some k) (some j) = (not (eqb k j) || eqb t u) ≡ true
OneTask t u _ _ = Unit

-- A shared core that is there stays.
abbrev pub Kept : Option ℕ → Option ℕ → Type 0
Kept none o = Unit
Kept (some s) o = o ≡ some s

module _ (max_len backpressure : ℕ) where
  new_core-start_task : (c : EventCore) → new_core max_len backpressure ≡ ok c → c.start_task ≡ none
  unfolding new_core
  new_core-start_task c h =
      let (p, opened, made) = >>=-eq-ok (open_pipe (empty_channel max_len)) _ h in
      ground (arith, made)

  get_core-Steady :
      (new : ℕ) (f : Factory)
      → get new f.cores ≡ none
      → IsOnce f
      → Steady f (get_core max_len backpressure new f).0
  unfolding get_core
  get_core-Steady new f at m = go f.core refl
    where
      build :
          (r : Result EventCore)
          → new_core max_len backpressure ≡ r
          → f.core ≡ none
          → Steady f (build_core max_len backpressure new f r).0
      build (raise e) q h = (m, λ j e. e)
      build (ok c) q h = (
        new-IsOnce f new c m (some new) at (new_core-start_task c q) (λ j e. inr (cc e)),
        λ j e. cc (h, e),
      )

      go : (o : Option ℕ) → f.core ≡ o → Steady f (get_core_from max_len backpressure new f o).0
      go none h = build (new_core max_len backpressure) refl h
      go (some k) h = (m, λ j e. e)

  pub choose_core-Steady :
      (new : ℕ) (core : Option ℕ) (f : Factory)
      → get new f.cores ≡ none
      → IsOnce f
      → Steady f (choose_core max_len backpressure new core f).0
  choose_core-Steady new none f at m = get_core-Steady new f at m
  choose_core-Steady new (some k) f at m = (m, λ j e. e)

  pub choose_core-IsFresh :
      (new task : ℕ) (core : Option ℕ) (f : Factory)
      → IsFresh f task
      → IsFresh (choose_core max_len backpressure new core f).0 task
  unfolding get_core
  choose_core-IsFresh new task (some k) f free = free
  choose_core-IsFresh new task none f free = go f.core
    where
      build :
          (r : Result EventCore)
          → new_core max_len backpressure ≡ r
          → IsFresh (build_core max_len backpressure new f r).0 task
      build (raise e) q = free
      build (ok c) q = (
        free.0,
        λ k d at names. elim (Bool-cases (new == k)) [
          | inl e ↦
              let mine : c ≡ d = ground (arith, get-put new k c f.cores) in
              cc (new_core-start_task c q, mine, names)
          | inr e ↦ free.1 k d (ground (arith, get-put new k c f.cores)) names
        ],
      )

      go : (o : Option ℕ) → IsFresh (get_core_from max_len backpressure new f o).0 task
      go none = build (new_core max_len backpressure) refl
      go (some k) = free

  -- A call is the choice of a core, and what it does with that core.
  then-Steady :
      {X : Type 0} (f : Factory) (q : Factory × Result ℕ) (act : Factory × Result ℕ → Factory × X)
      → Steady f q.0
      → (IsOnce q.0 → Steady q.0 (act q).0)
      → Steady f (act q).0
  then-Steady f q act (m, keeps) acts =
      let (m', keeps') = acts m in (m', λ k e. keeps' k (keeps k e))

  step-Steady : (f g : Factory) → FactoryStep max_len backpressure f g → IsOnce f → Steady f g
  unfolding get_component aget_component start_core
  step-Steady f _ (gets in_loop new task part core at free) m =
      let q = choose_core max_len backpressure new core f in
      then-Steady f q (got in_loop task part) (choose_core-Steady new core f at m)
        (got-Steady in_loop task part q.0 q.1 (choose_core-IsFresh new task core f free))
  step-Steady f _ (awaits new consumer part core at) m =
      let q = choose_core max_len backpressure new core f in
      then-Steady f q (started_with consumer part) (choose_core-Steady new core f at m)
        (started_with-Steady consumer part q.0 q.1)
  step-Steady f _ (starts new consumer core at) m =
      let q = choose_core max_len backpressure new core f in
      then-Steady f q (started consumer) (choose_core-Steady new core f at m)
        (started-Steady consumer q.0 q.1)
  step-Steady f _ (runs task consumer) m = run_start-Steady task consumer f m
  step-Steady f _ (gives_up task) m = (del-IsOnce f task m, λ j e. e)
  step-Steady f _ (builds k c at idle) m =
      (new-IsOnce f k c m f.core at idle (λ j e. inl e), λ j e. e)
  step-Steady f _ (works k running l) m =
      change-Steady (λ c. record c { is_running = running; event_loop = l }) (λ c. refl) k f m

  Reach-Steady : (f g : Factory) → FactoryReach max_len backpressure f g → IsOnce f → Steady f g
  Reach-Steady f _ here m = (m, λ k e. e)
  Reach-Steady f h (next {g} r s) m =
      let (m', keeps) = Reach-Steady f g r m in
      let (m'', keeps') = step-Steady g h s m' in (m'', λ k e. keeps' k (keeps k e))

  imported-IsOnce : IsOnce imported
  unfolding get
  imported-IsOnce = record {
    named = λ t k h. cc h;
    owned = λ t j k c h. cc h;
    present = λ k h. cc h;
  }

  pub Reach-IsOnce : (f : Factory) → FactoryReach max_len backpressure imported f → IsOnce f
  Reach-IsOnce f r = (Reach-Steady imported f r imported-IsOnce).0

  one_task :
      (f : Factory) (t u : ℕ) (o p : Option ℕ)
      → IsOnce f
      → get t f.unfinished ≡ o
      → get u f.unfinished ≡ p
      → OneTask t u o p
  one_task f t u none p m at at' = tt
  one_task f t u (some k) none m at at' = tt
  one_task f t u (some k) (some j) m at at' = elim (Bool-cases (eqb k j)) [
    | inr other ↦ ground (arith, other)
    | inl same ↦
        let e : k ≡ j = ground (arith, same) in
        let (c, stored, names) = m.named t k at in
        let (d, stored', names') = m.named u j at' in
        let once : t ≡ u = cc (stored, stored', names, names', e) in ground (arith, once)
  ]

  kept : (f g : Factory) (o : Option ℕ) → f.core ≡ o → Steady f g → Kept o g.core
  kept f g none at keeps = tt
  kept f g (some s) at keeps = keeps.1 s at

  -- From the import on, whatever is called from whatever task: two startup tasks of one core that are
  -- not done are the same task; and a shared core, if it has been built, stays the shared core, whatever is
  -- called afterwards.
  pub Reach-single :
      (f g : Factory) (t u : ℕ)
      → FactoryReach max_len backpressure imported f
      → FactoryReach max_len backpressure f g
      → OneTask t u (get t f.unfinished) (get u f.unfinished) × Kept f.core g.core
  Reach-single f g t u r r' =
      let m = Reach-IsOnce f r in
      (one_task f t u _ _ m refl refl, kept f g f.core refl (Reach-Steady f g r' m))
