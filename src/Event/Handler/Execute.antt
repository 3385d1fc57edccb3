-- ===== src/Event/Handler/Execute.antt =====
-- One handler on one event: which functions run, and what stays of it on the event.
use apixis.Base.{
  ◌≤◌, Bool, true, false, not, ◌&&◌, ◌≡◌, refl, ap, ◌∙◌, List, [], ◌∷◌, ◌++◌, arith, if◌then◌else◌,
  length, length-append, append_assoc, if_cases, subst,
}
use apixis.Event.Handler.{
  ApixEvent, ApixEventHandler, ApixEventError, EventHandlerFunc, Outcome, returned, failed,
  core_func, has_error, is_empty, notify_has_error, run_core, after_notification, execute,
}
use apixis.Event.Handler.Core.{CoreOf, same_mark, execute-Cores}
use apixis.Event.Handler.Laws.{
  IsBehaved, Grows, Grows-trans, Grows-weaken, execute_func-Grows, notify_has_error-Grows,
  notify_accepted-Grows,
}

-- The core runs at most once, and `seen` tells whether it did. It does not run on an event that is
-- accepted, nor on one with errors where the handler stops at them. At most four errors are added
-- behind those present, none in the background, and an acceptance stays.
pub record Executes (h : ApixEventHandler) (e e' : ApixEvent) : Type 0 where
  pub ran : Bool
  pub seen : e'.seen ≡ (if ran then e.seen ++ h.name ∷ [] else e.seen)
  pub added : List ApixEventError
  pub errors : e'.error_stack ≡ e.error_stack ++ added
  pub few : length added ≤ 4
  pub background : h.background ≡ true → added ≡ []
  pub accepted : e.accepted ≡ true → e'.accepted ≡ true
  pub skips_accepted : e.accepted ≡ true → ran ≡ false
  pub stops_at_error : has_error e ≡ true → h.stop_when_error ≡ true → ran ≡ false

-- The same, with each condition as a test, and with what becomes of the core.
pub record Executed (h : ApixEventHandler) (other : EventHandlerFunc) (e : ApixEvent)
    (r : ApixEvent × Outcome) : Type 0 where
  pub ran : Bool
  pub core : CoreOf h e r (execute (record h { core_func = other }) e) ran
  pub seen : r.0.seen ≡ (if ran then e.seen ++ h.name ∷ [] else e.seen)
  pub added : List ApixEventError
  pub errors : r.0.error_stack ≡ e.error_stack ++ added
  pub few : length added ≤ 4
  pub background : (h.background && not (is_empty added)) ≡ false
  pub accepted : (e.accepted && not r.0.accepted) ≡ false
  pub skips_accepted : (e.accepted && ran) ≡ false
  pub stops_at_error : (has_error e && h.stop_when_error && ran) ≡ false

pub no_core : (a b : Bool) → (a ≡ true → b ≡ false) → (a && b) ≡ false
no_core true b h = h refl
no_core false b h = refl

pub no_core_both : (a b c : Bool) → (a ≡ true → b ≡ true → c ≡ false) → (a && b && c) ≡ false
no_core_both true true c h = h refl refl
no_core_both true false c h = refl
no_core_both false b c h = refl

-- A handler whose core does not run only grows the event.
Grows-Executes : {h : ApixEventHandler} {e e' : ApixEvent} → Grows 4 h e e' → Executes h e e'
Grows-Executes g = record {
  ran = false;
  seen = g.seen;
  added = g.added;
  errors = g.errors;
  few = g.few;
  background = g.background;
  accepted = g.accepted;
  skips_accepted = λ a. refl;
  stops_at_error = λ x s. refl;
}

pub is_empty-append {ℓ} :
    {A : Type ℓ} (xs ys : List A) → is_empty xs ≡ false → is_empty (xs ++ ys) ≡ false
is_empty-append [] ys h = cc
is_empty-append (x ∷ xs) ys h = refl

module _ (h : ApixEventHandler) (b : IsBehaved h) where
  run_core-Executes :
      (e e' : ApixEvent)
      → Grows 2 h e e'
      → e'.accepted ≡ false
      → (has_error e' && h.stop_when_error) ≡ false
      → Executes h e (run_core h e').0
  unfolding run_core
  run_core-Executes e e' g open_event going =
      let e'' : ApixEvent = record e' { seen = e'.seen ++ h.name ∷ [] } in
      let k = execute_func-Grows h b h.core_func core_func e'' b.core in
      record {
        ran = true;
        seen = k.seen ∙ ap (λ x. x ++ h.name ∷ []) g.seen;
        added = g.added ++ k.added;
        errors =
            k.errors ∙ ap (λ x. x ++ k.added) g.errors ∙ append_assoc e.error_stack g.added k.added;
        few = omega (arith, length-append g.added k.added, g.few, k.few);
        background = λ bg. cc (g.background bg, k.background bg);
        accepted = λ a. absurd (cc (g.accepted a));
        skips_accepted = λ a. absurd (cc (g.accepted a));
        stops_at_error = λ errs stops. absurd (
            ground
              (arith, is_empty-append e.error_stack g.added (ground arith), ap is_empty g.errors));
      }

  after-Executes : (e e' : ApixEvent) → Grows 2 h e e' → Executes h e (after_notification h e').0
  unfolding after_notification
  after-Executes e e' g =
      if_cases (λ (r : ApixEvent × Outcome). Executes h e r.0) e'.accepted _ _
        (λ acc.
          Grows-Executes (Grows-trans g (notify_accepted-Grows h b h.on_accepted e' b.accepted)))
        λ open_event.
          if_cases (λ (r : ApixEvent × Outcome). Executes h e r.0)
            (has_error e' && h.stop_when_error) _ _
            (λ stops. Grows-Executes (Grows-weaken (omega arith) g))
            (λ going. run_core-Executes e e' g open_event going)

  pub execute-Executes : (e : ApixEvent) → Executes h e (execute h e).0
  unfolding execute
  execute-Executes e = go (notify_has_error h h.on_has_error e).1 refl
    where
      go :
          (o : Outcome) → (notify_has_error h h.on_has_error e).1 ≡ o → Executes h e (execute h e).0
      go returned eq =
          rw (execute, eq)
            (after-Executes e (notify_has_error h h.on_has_error e).0
              (notify_has_error-Grows h b h.on_has_error e b.has_error))
      go (failed x) eq =
          rw (execute, eq)
            (Grows-Executes (
              Grows-weaken (omega arith) (notify_has_error-Grows h b h.on_has_error e b.has_error)))

  -- A handler whose functions leave the bookkeeping of the event alone runs its core at most once, and
  -- `seen` tells whether it did: not on an accepted event, nor on one with errors where it stops at
  -- them. The result is then that of the core on an event that is not accepted, with a failure recorded
  -- and reported; if the core does not run, the result is the same with any other core. At most four
  -- errors are added behind those present, none in the background, and an acceptance stays.
  pub execute-Executed :
      (other : EventHandlerFunc) (e : ApixEvent) → Executed h other e (execute h e)
  execute-Executed other e =
      let x = execute-Executes e in
      let c = execute-Cores h b other e in
      record {
        ran = x.ran;
        core =
            subst (CoreOf h e (execute h e) (execute (record h { core_func = other }) e))
              (same_mark (execute h e).0.seen e.seen h.name c.ran x.ran c.seen x.seen) c.core;
        seen = x.seen;
        added = x.added;
        errors = x.errors;
        few = x.few;
        background = no_core h.background _ (λ bg. ap (λ l. not (is_empty l)) (x.background bg));
        accepted = no_core e.accepted _ (λ a. ap not (x.accepted a));
        skips_accepted = no_core e.accepted _ x.skips_accepted;
        stops_at_error = no_core_both (has_error e) h.stop_when_error _ x.stops_at_error;
      }
