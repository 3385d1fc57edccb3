-- ===== src/Event/Handler/Core.antt =====
-- What becomes of the core of a handler in one execution (source/apixis/core/event/base.py).
use apixis.Base.{
  Bool, true, false, ◌&&◌, ◌≡◌, refl, ap, ◌∙◌, List, [], ◌∷◌, ◌++◌, Option, none, some, arith,
  if◌then◌else◌, length, length-append, subst, sym, Bool-cases, inl, inr, String,
}
use apixis.Event.Handler.{
  ApixEvent, ApixEventHandler, EventHandlerFunc, Outcome, returned, failed, exception, cancelled,
  core_func, has_error, notify_has_error, notify_accepted, run_core, after_notification, execute,
  execute_func, record_failure, report, run_on_error,
}
use apixis.Event.Handler.Laws.{
  IsBehaved, Grows, Grows-trans, execute_func-Grows, notify_has_error-Grows, notify_accepted-Grows,
}

-- What an execution makes of the outcome of the core: its event, or the recorded failure.
abbrev pub Reports : ApixEventHandler → ApixEvent × Outcome → ApixEvent × Outcome → Type 0
Reports h (e, returned) r = r ≡ (e, returned)
Reports h (e, failed cancelled) r = r ≡ (record_failure h core_func cancelled e, failed cancelled)
Reports h (e, failed (exception x)) r =
    r ≡ report h h.on_error x (record_failure h core_func (exception x) e)

-- If the core runs, the result `r` is that of the core on an event that is not accepted and has seen the
-- handler. If not, it is the result `r'` that any other core gives.
abbrev pub CoreOf :
    ApixEventHandler → ApixEvent → ApixEvent × Outcome → ApixEvent × Outcome → Bool → Type 0
CoreOf h e r r' true =
    (at : ApixEvent) × (at.accepted ≡ false)
    × (at.seen ≡ e.seen ++ h.name ∷ [])
    × Reports h (h.core_func at) r
CoreOf h e r r' false = r' ≡ r

-- Two marks of one list agree.
pub same_mark :
    (xs ys : List String) (name : String) (a b : Bool)
    → xs ≡ (if a then ys ++ name ∷ [] else ys)
    → xs ≡ (if b then ys ++ name ∷ [] else ys)
    → a ≡ b
same_mark xs ys name true true h k = refl
same_mark xs ys name false false h k = refl
same_mark xs ys name true false h k =
    absurd (omega (arith, ap length h, ap length k, length-append ys (name ∷ [])))
same_mark xs ys name false true h k =
    absurd (omega (arith, ap length h, ap length k, length-append ys (name ∷ [])))

-- An execution with the core of the handler and one with another core.
pub record Cores (h : ApixEventHandler) (e : ApixEvent) (r r' : ApixEvent × Outcome) : Type 0 where
  pub ran : Bool
  pub seen : r.0.seen ≡ (if ran then e.seen ++ h.name ∷ [] else e.seen)
  pub core : CoreOf h e r r' ran

module _ (h : ApixEventHandler) (b : IsBehaved h) (other : EventHandlerFunc) where
  abbrev pub with_other : ApixEventHandler
  with_other = record h { core_func = other }

  Reports_lem :
      (q : ApixEvent × Outcome)
      → Reports h q (elim q.1 [
        | returned ↦ (q.0, returned)
        | failed cancelled ↦ (record_failure h core_func cancelled q.0, failed cancelled)
        | failed (exception x) ↦
            report h h.on_error x (record_failure h core_func (exception x) q.0)
      ])
  Reports_lem (e, returned) = refl
  Reports_lem (e, failed cancelled) = refl
  Reports_lem (e, failed (exception x)) = refl

  execute_func-Reports :
      (e : ApixEvent) → Reports h (h.core_func e) (execute_func h h.core_func core_func e)
  unfolding execute_func
  execute_func-Reports e = Reports_lem (h.core_func e)

  notify_accepted-same :
      (o : Option EventHandlerFunc) (e : ApixEvent)
      → notify_accepted with_other o e ≡ notify_accepted h o e
  unfolding notify_accepted execute_func report run_on_error record_failure
  notify_accepted-same none e = refl
  notify_accepted-same (some f) e = refl

  notify_has_error-same :
      (o : Option EventHandlerFunc) (e : ApixEvent)
      → notify_has_error with_other o e ≡ notify_has_error h o e
  unfolding notify_has_error execute_func report run_on_error record_failure
  notify_has_error-same none e = refl
  notify_has_error-same (some f) e = refl

  -- What follows the notification of errors.
  abbrev resumed : ApixEventHandler → ApixEvent × Outcome → ApixEvent × Outcome
  resumed k (e, returned) = after_notification k e
  resumed k (e, failed x) = (e, failed x)

  resumed_lem :
      (k : ApixEventHandler) (q : ApixEvent × Outcome)
      → (elim q.1 [ returned ↦ after_notification k q.0 | failed x ↦ (q.0, failed x) ])
        ≡ resumed k q
  resumed_lem k (e', returned) = refl
  resumed_lem k (e', failed x) = refl

  execute-resumed :
      (k : ApixEventHandler) (e : ApixEvent)
      → execute k e ≡ resumed k (notify_has_error k k.on_has_error e)
  unfolding execute
  execute-resumed k e = resumed_lem k (notify_has_error k k.on_has_error e)

  Cores-as :
      {e : ApixEvent} {r r' q q' : ApixEvent × Outcome}
      → r ≡ q
      → r' ≡ q'
      → Cores h e q q'
      → Cores h e r r'
  Cores-as {e} {r} {r'} {q} {q'} p p' c =
      subst (λ x. Cores h e x r') (sym p) (subst (λ x. Cores h e q x) (sym p') c)

  after_accepted :
      (k : ApixEventHandler) (e : ApixEvent)
      → e.accepted ≡ true
      → after_notification k e ≡ notify_accepted k k.on_accepted e
  unfolding after_notification
  after_accepted k e a = rw (a) refl

  after_stop :
      (k : ApixEventHandler) (e : ApixEvent)
      → e.accepted ≡ false
      → (has_error e && k.stop_when_error) ≡ true
      → after_notification k e ≡ (e, returned)
  unfolding after_notification
  after_stop k e a stops = rw (a, stops) refl

  after_core :
      (k : ApixEventHandler) (e : ApixEvent)
      → e.accepted ≡ false
      → (has_error e && k.stop_when_error) ≡ false
      → after_notification k e ≡ run_core k e
  unfolding after_notification
  after_core k e a going = rw (a, going) refl

  run_core-Cores :
      (e e' : ApixEvent) (r' : ApixEvent × Outcome)
      → Grows 2 h e e'
      → e'.accepted ≡ false
      → Cores h e (run_core h e') r'
  unfolding run_core
  run_core-Cores e e' r' g open_event =
      let at : ApixEvent = record e' { seen = e'.seen ++ h.name ∷ [] } in
      let marked = ap (λ x. x ++ h.name ∷ []) g.seen in
      record {
        ran = true;
        seen = (execute_func-Grows h b h.core_func core_func at b.core).seen ∙ marked;
        core = (at, open_event, marked, execute_func-Reports at);
      }

  after-Cores :
      (e e' : ApixEvent)
      → Grows 2 h e e'
      → Cores h e (after_notification h e') (after_notification with_other e')
  after-Cores e e' g = elim (Bool-cases e'.accepted) [
    | inl acc ↦
        Cores-as (after_accepted h e' acc)
          (after_accepted with_other e' acc ∙ notify_accepted-same h.on_accepted e')
          (record {
            ran = false;
            seen = (Grows-trans g (notify_accepted-Grows h b h.on_accepted e' b.accepted)).seen;
            core = refl;
          })
    | inr open_event ↦ elim (Bool-cases (has_error e' && h.stop_when_error)) [
      | inl stops ↦
          Cores-as (after_stop h e' open_event stops) (after_stop with_other e' open_event stops)
            (record { ran = false; seen = g.seen; core = refl })
      | inr going ↦
          Cores-as (after_core h e' open_event going) refl
            (run_core-Cores e e' (after_notification with_other e') g open_event)
    ]
  ]

  resumed-Cores :
      (e : ApixEvent) (q : ApixEvent × Outcome)
      → Grows 2 h e q.0
      → Cores h e (resumed h q) (resumed with_other q)
  resumed-Cores e (e', returned) g = after-Cores e e' g
  resumed-Cores e (e', failed x) g = record { ran = false; seen = g.seen; core = refl }

  pub execute-Cores : (e : ApixEvent) → Cores h e (execute h e) (execute with_other e)
  execute-Cores e =
      Cores-as (execute-resumed h e)
        (execute-resumed with_other e
          ∙ ap (resumed with_other) (notify_has_error-same h.on_has_error e))
        (resumed-Cores e (notify_has_error h h.on_has_error e)
          (notify_has_error-Grows h b h.on_has_error e b.has_error))
