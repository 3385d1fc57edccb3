-- ===== src/Event/Factory/Starts.antt =====
-- What a getter of source/apixis/core/event/factory.py promises inside asyncio.
use apixis.Base.{
  ℕ, Bool, true, false, ◌||◌, Option, none, some, Result, ok, is_some, nat_eq, eq_self, ◌⊎◌, inl,
  inr, if◌then◌else◌, if_cases, ◌≡◌, ◌<◌, refl, sym, ap, subst, arith, ◌∙◌,
}
use apixis.Base.Dict.{get, put, del, get-put}
use apixis.Event.Pipe.{open_pipe, empty_channel}
use apixis.Event.Loop.{start}
use apixis.Event.Factory.{
  EventCore, is_started, Factory, imported, Part, choose_core, changed, start_components,
  start_core_of, is_starting, ensure_started, got, run_start, new_core, build_core, get_core,
  get_core_from, get_component, new_components,
}
use apixis.Event.Factory.Once.{IsOnce, IsFresh, FactoryReach}
use apixis.Event.Factory.Reach.{
  Reach-IsOnce, choose_core-Steady, choose_core-IsFresh, ensure_started-Steady,
}

abbrev runs_core : Option EventCore → Bool
runs_core none = false
runs_core (some c) = is_started c

abbrev pub started_at : ℕ → Factory → Bool
started_at k f = runs_core (get k f.cores)

-- The core runs, or a startup task that is not done makes it run.
abbrev pub Starting : Factory → ℕ → Type 0
Starting f k =
    (started_at k f ≡ true)
    ⊎ ((t : ℕ) × (get t f.unfinished ≡ some k)
        × ((consumer : ℕ) → started_at k (run_start t consumer f) ≡ true))

start_components-is_started :
    (consumer : ℕ) (c : EventCore) → is_started (start_components consumer c) ≡ true
unfolding start_components start
start_components-is_started consumer c = ground arith

start_core_of-started_at :
    (consumer k : ℕ) (f : Factory) (c : EventCore)
    → get k f.cores ≡ some c
    → started_at k (start_core_of consumer k f) ≡ true
start_core_of-started_at consumer k f c at =
    subst (λ o. started_at k (changed (start_components consumer) k f o) ≡ true) (sym at)
      (ap runs_core (
          get-put k k (start_components consumer c) f.cores
          ∙ ap (λ b. if b then some (start_components consumer c) else get k f.cores) (eq_self k))
        ∙ start_components-is_started consumer c)

run_start-started_at :
    (t consumer k : ℕ) (f : Factory) (c : EventCore)
    → get k f.cores ≡ some c
    → get t f.unfinished ≡ some k
    → started_at k (run_start t consumer f) ≡ true
unfolding run_start
run_start-started_at t consumer k f c at h =
    rw h (start_core_of-started_at consumer k (record f { unfinished = del t f.unfinished }) c at)

ensure_started-Starting :
    (task k : ℕ) (f : Factory) (c : EventCore)
    → IsOnce f
    → get k f.cores ≡ some c
    → Starting (ensure_started true task k f) k
unfolding ensure_started
ensure_started-Starting task k f c m at = rw (at) (
    if_cases (λ g. Starting g k) (is_started c || is_starting f c.start_task) _ _
      (λ yes'. starting (is_started c) c.start_task refl refl yes')
      (λ no'. inr (
        task,
        get-put task task k f.unfinished
            ∙ ap (λ b. if b then some k else get task f.unfinished) (eq_self task),
        λ consumer.
            run_start-started_at task consumer k
              (record f {
                cores = put k (record c { start_task = some task }) f.cores;
                unfinished = put task k f.unfinished;
              })
              (record c { start_task = some task })
              (ground (arith, get-put k k (record c { start_task = some task }) f.cores, eq_self k))
              (ground (arith, get-put task task k f.unfinished, eq_self task)),
      )))
  where
    waiting :
        (t : ℕ)
        → c.start_task ≡ some t
        → (o : Option ℕ) → get t f.unfinished ≡ o
        → is_some o ≡ true
        → Starting f k
    waiting t names none h e = cc e
    waiting t names (some j) h e =
        let same : j ≡ k = m.owned t j k c h at names in
        let mine : get t f.unfinished ≡ some k = h ∙ ap some same in
        inr (t, mine, λ consumer. run_start-started_at t consumer k f c at mine)

    starting :
        (b : Bool) (o : Option ℕ)
        → is_started c ≡ b
        → c.start_task ≡ o
        → (b || is_starting f o) ≡ true
        → Starting f k
    starting true o e names h = inl (ap runs_core at ∙ e)
    starting false none e names h = cc h
    starting false (some t) e names h = waiting t names (get t f.unfinished) refl h

-- The core that an argument `core` stands for.
abbrev pub or_shared : Option ℕ → Factory → Option ℕ
or_shared none f = f.core
or_shared (some k) f = some k

-- A component of that core is the result, and that core is started or starting.
abbrev pub Serves : Option ℕ → Part → Factory × Result (Part × ℕ) → Type 0
Serves core part (g, r) = (k : ℕ) × (r ≡ ok (part, k)) × (or_shared core g ≡ some k) × Starting g k

abbrev Chooses : Option ℕ → Factory × Result ℕ → Type 0
Chooses core (g, r) =
    (k : ℕ) × (r ≡ ok k) × (or_shared core g ≡ some k) × (is_some (get k g.cores) ≡ true)

module _ (max_len backpressure : ℕ) (bounded : 0 < max_len) where
  new_core-ok : (c : EventCore) × (new_core max_len backpressure ≡ ok c)
  unfolding new_core open_pipe
  new_core-ok = (
    new_components max_len backpressure
        (record { channel = empty_channel max_len; is_running = false }),
    ground (arith, bounded),
  )

  choose_core-Chooses :
      (new : ℕ) (core : Option ℕ) (f : Factory)
      → ((k : ℕ) → core ≡ some k → is_some (get k f.cores) ≡ true)
      → IsOnce f
      → Chooses core (choose_core max_len backpressure new core f)
  unfolding get_core
  choose_core-Chooses new (some k) f given m = (k, refl, refl, given k refl)
  choose_core-Chooses new none f given m = go f.core refl
    where
      go : (o : Option ℕ) → f.core ≡ o → Chooses none (get_core_from max_len backpressure new f o)
      go (some k) h = (k, refl, h, m.present k h)
      go none h =
          let (c, made) = new_core-ok in
          subst (λ r. Chooses none (build_core max_len backpressure new f r)) (sym made)
            (new, refl, refl, ground (arith, get-put new new c f.cores, eq_self new))

  served :
      (task k : ℕ) (part : Part) (core : Option ℕ) (g : Factory)
      → or_shared core g ≡ some k
      → is_some (get k g.cores) ≡ true
      → IsOnce g
      → IsFresh g task
      → Serves core part (got true task part (g, ok k))
  unfolding got
  served task k part core g shared at m free =
      (k, refl, kept core shared, starting (get k g.cores) refl at)
    where
      kept :
          (o : Option ℕ)
          → or_shared o g ≡ some k
          → or_shared o (ensure_started true task k g) ≡ some k
      kept none h = (ensure_started-Steady true task k g free m).1 k h
      kept (some j) h = h

      starting :
          (o : Option EventCore)
          → get k g.cores ≡ o
          → is_some o ≡ true
          → Starting (ensure_started true task k g) k
      starting none h e = cc e
      starting (some c) h e = ensure_started-Starting task k g c m h

  got-Serves :
      (task : ℕ) (part : Part) (core : Option ℕ) (q : Factory × Result ℕ)
      → Chooses core q
      → IsOnce q.0
      → IsFresh q.0 task
      → Serves core part (got true task part q)
  got-Serves task part core (g, r) (k, e, shared, at) m free =
      subst (λ x. Serves core part (got true task part (g, x))) (sym e)
        (served task k part core g shared at m free)

  -- Inside asyncio, with a bounded pipe, in every state that calls lead to: a getter raises nothing
  -- and answers with a component of the core that it is given, or else of the shared core, which it
  -- builds if there is none. That core is then started, or has a startup task that is not done, and
  -- that makes it started as soon as it runs.
  pub get_component-Serves :
      (f : Factory) (new task : ℕ) (part : Part) (core : Option ℕ)
      → FactoryReach max_len backpressure imported f
      → get new f.cores ≡ none
      → IsFresh f task
      → ((k : ℕ) → core ≡ some k → is_some (get k f.cores) ≡ true)
      → Serves core part (get_component max_len backpressure true new task part core f)
  unfolding get_component
  get_component-Serves f new task part core r at free given =
      let m = Reach-IsOnce max_len backpressure f r in
      got-Serves task part core (choose_core max_len backpressure new core f)
        (choose_core-Chooses new core f given m)
        ((choose_core-Steady max_len backpressure new core f at m).0)
        (choose_core-IsFresh max_len backpressure new task core f free)
