-- ===== src/Event/Handler/Laws.antt =====
-- What `execute` does to the bookkeeping of an event, for functions that leave it alone.
use apixis.Base.{
  ℕ, ◌+◌, ◌≤◌, true, ◌≡◌, refl, ap, sym, ◌∙◌, List, [], ◌∷◌, ◌++◌, Option, none, some, inl, inr,
  arith, length, length-append, append-nil, append_assoc, Bool-cases,
}
use apixis.Event.Handler.{
  ApixEvent, ApixEventHandler, ApixEventError, EventHandlerFunc, EventHandlerErrorFunc, Outcome,
  returned, failed, cancelled, exception, Phase, Failure, on_has_error, on_accepted, on_error,
  is_empty, record_failure, run_on_error, report, execute_func, notify_has_error, notify_accepted,
}

-- The function may accept the event; it writes neither `seen` nor `error_stack`, and takes no
-- acceptance back.
pub record IsPolite (f : EventHandlerFunc) : Type 0 where
  pub seen : (e : ApixEvent) → (f e).0.seen ≡ e.seen
  pub errors : (e : ApixEvent) → (f e).0.error_stack ≡ e.error_stack
  pub accepted : (e : ApixEvent) → e.accepted ≡ true → (f e).0.accepted ≡ true

abbrev pub IsPolite? : Option EventHandlerFunc → Type 0
IsPolite? none = Unit
IsPolite? (some f) = IsPolite f

abbrev pub IsPoliteError : Option EventHandlerErrorFunc → Type 0
IsPoliteError none = Unit
IsPoliteError (some f) = (x : ℕ) → IsPolite (f x)

pub record IsBehaved (h : ApixEventHandler) : Type 0 where
  pub core : IsPolite h.core_func
  pub has_error : IsPolite? h.on_has_error
  pub accepted : IsPolite? h.on_accepted
  pub error : IsPoliteError h.on_error

-- From `e` to `e'` the errors only grow, by `n` at most and by none in the background; `seen` stays,
-- and so does an acceptance.
pub record Grows (n : ℕ) (h : ApixEventHandler) (e e' : ApixEvent) : Type 0 where
  pub seen : e'.seen ≡ e.seen
  pub added : List ApixEventError
  pub errors : e'.error_stack ≡ e.error_stack ++ added
  pub few : length added ≤ n
  pub background : h.background ≡ true → added ≡ []
  pub accepted : e.accepted ≡ true → e'.accepted ≡ true

pub Grows-trans :
    {n m : ℕ} {h : ApixEventHandler} {e e' e'' : ApixEvent}
    → Grows n h e e'
    → Grows m h e' e''
    → Grows (n + m) h e e''
Grows-trans {e = e} {e'' = e''} g k = record {
  seen = k.seen ∙ g.seen;
  added = g.added ++ k.added;
  errors = k.errors ∙ ap (λ x. x ++ k.added) g.errors ∙ append_assoc e.error_stack g.added k.added;
  few = omega (arith, length-append g.added k.added, g.few, k.few);
  background = λ b. cc (g.background b, k.background b);
  accepted = λ a. k.accepted (g.accepted a);
}

pub Grows-refl : (n : ℕ) (h : ApixEventHandler) (e : ApixEvent) → Grows n h e e
Grows-refl n h e = record {
  seen = refl;
  added = [];
  errors = sym (append-nil e.error_stack);
  few = omega arith;
  background = λ b. refl;
  accepted = λ a. a;
}

-- A polite function changes none of it.
IsPolite-Grows :
    (h : ApixEventHandler) (f : EventHandlerFunc) (e : ApixEvent) → IsPolite f → Grows 0 h e (f e).0
IsPolite-Grows h f e p = record {
  seen = p.seen e;
  added = [];
  errors = p.errors e ∙ sym (append-nil e.error_stack);
  few = omega arith;
  background = λ b. refl;
  accepted = p.accepted e;
}

record_failure-Grows :
    (h : ApixEventHandler) (ph : Phase) (x : Failure) (e : ApixEvent)
    → Grows 1 h e (record_failure h ph x e)
unfolding record_failure
record_failure-Grows h ph x e = elim (Bool-cases h.background) [
  | inl b ↦
      rw (record_failure, b)
        (record {
          seen = refl;
          added = [];
          errors = sym (append-nil e.error_stack);
          few = omega arith;
          background = λ _. refl;
          accepted = λ a. a;
        })
  | inr f ↦
      rw (record_failure, f)
        (record {
          seen = refl;
          added = record { handler_name = h.name; phase = ph; failure = x } ∷ [];
          errors = refl;
          few = omega arith;
          background = λ b. absurd (cc);
          accepted = λ a. a;
        })
]

pub Grows-weaken :
    {n m : ℕ} {h : ApixEventHandler} {e e' : ApixEvent} → n ≤ m → Grows n h e e' → Grows m h e e'
Grows-weaken le g = record {
  seen = g.seen;
  added = g.added;
  errors = g.errors;
  few = omega (arith, g.few);
  background = g.background;
  accepted = g.accepted;
}

module _ (h : ApixEventHandler) (b : IsBehaved h) where
  run_on_error-Grows :
      (f : EventHandlerErrorFunc) (x : ℕ) (e : ApixEvent)
      → IsPolite (f x)
      → Grows 1 h e (run_on_error h f x e).0
  unfolding run_on_error
  run_on_error-Grows f x e p = go (f x e).1 refl
    where
      go : (o : Outcome) → (f x e).1 ≡ o → Grows 1 h e (run_on_error h f x e).0
      go returned eq =
          rw (run_on_error, eq) (Grows-weaken (omega arith) (IsPolite-Grows h (f x) e p))
      go (failed cancelled) eq =
          rw (run_on_error, eq)
            (Grows-trans (IsPolite-Grows h (f x) e p)
              (record_failure-Grows h on_error cancelled (f x e).0))
      go (failed (exception y)) eq =
          rw (run_on_error, eq)
            (Grows-trans (IsPolite-Grows h (f x) e p)
              (record_failure-Grows h on_error (exception y) (f x e).0))

  report-Grows :
      (o : Option EventHandlerErrorFunc) (x : ℕ) (e : ApixEvent)
      → IsPoliteError o
      → Grows 1 h e (report h o x e).0
  unfolding report
  report-Grows none x e p = Grows-refl 1 h e
  report-Grows (some f) x e p = run_on_error-Grows f x e (p x)

  pub execute_func-Grows :
      (f : EventHandlerFunc) (ph : Phase) (e : ApixEvent)
      → IsPolite f
      → Grows 2 h e (execute_func h f ph e).0
  unfolding execute_func
  execute_func-Grows f ph e p = go (f e).1 refl
    where
      go : (o : Outcome) → (f e).1 ≡ o → Grows 2 h e (execute_func h f ph e).0
      go returned eq = rw (execute_func, eq) (Grows-weaken (omega arith) (IsPolite-Grows h f e p))
      go (failed cancelled) eq =
          rw (execute_func, eq)
            (Grows-weaken (omega arith)
              (Grows-trans (IsPolite-Grows h f e p) (record_failure-Grows h ph cancelled (f e).0)))
      go (failed (exception x)) eq =
          rw (execute_func, eq)
            (Grows-trans
              (Grows-trans (IsPolite-Grows h f e p)
                (record_failure-Grows h ph (exception x) (f e).0))
              (report-Grows h.on_error x (record_failure h ph (exception x) (f e).0) b.error))

  pub notify_has_error-Grows :
      (o : Option EventHandlerFunc) (e : ApixEvent)
      → IsPolite? o
      → Grows 2 h e (notify_has_error h o e).0
  unfolding notify_has_error
  notify_has_error-Grows none e p = Grows-refl 2 h e
  notify_has_error-Grows (some f) e p = elim (Bool-cases (is_empty e.error_stack)) [
    | inl clean ↦ rw clean (Grows-refl 2 h e)
    | inr errs ↦ rw errs (execute_func-Grows f on_has_error e p)
  ]

  pub notify_accepted-Grows :
      (o : Option EventHandlerFunc) (e : ApixEvent)
      → IsPolite? o
      → Grows 2 h e (notify_accepted h o e).0
  unfolding notify_accepted
  notify_accepted-Grows none e p = Grows-refl 2 h e
  notify_accepted-Grows (some f) e p = execute_func-Grows f on_accepted e p
