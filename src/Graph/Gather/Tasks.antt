-- ===== src/Graph/Gather/Tasks.antt =====
-- Tasks that are done, that have failed, and that `cancel` has been called on
-- (source/apixis/core/graph/node.py).
use apixis.Base.{
  ℕ, zero, suc, Bool, true, false, List, [], ◌∷◌, none, some, Result, ok, raise, Error,
  cancelled_error, if◌then◌else◌, ◌≡◌, refl, sym, ap, arith, ◌⊎◌, inl, inr, ◌∙◌, Option-cases,
}
use mathlib.Core.Option
use apixis.Graph.Gather.{
  Task, unfinished, finished, all_results, all_finished, end_task, end_at, cancel_task,
  cancel_unfinished, is_unfinished_at,
}

module _ {X : Type 0} where
  -- Every task is done, or `cancel` has been called on it.
  abbrev pub all_asked : List (Task X) → Bool
  all_asked [] = true
  all_asked (unfinished b ∷ ts) = if b then all_asked ts else false
  all_asked (finished r ∷ ts) = all_asked ts

  -- No task has failed.
  abbrev pub none_failed : List (Task X) → Bool
  none_failed [] = true
  none_failed (finished (raise e) ∷ ts) = false
  none_failed (_ ∷ ts) = none_failed ts

  -- Some task has failed with `e`.
  abbrev pub Fails : Error → List (Task X) → Type 0
  Fails e [] = ⊥
  Fails e (t ∷ ts) = (t ≡ finished (raise e)) ⊎ Fails e ts

  -- What an exception comes from: a task, or the cancellation of the caller.
  abbrev pub Reason : Error → Bool → List (Task X) → Type 0
  Reason e requested ts = Fails e ts ⊎ ((e ≡ cancelled_error) × (requested ≡ true))

  pub cancel_unfinished-all_asked : (ts : List (Task X)) → all_asked (cancel_unfinished ts) ≡ true
  cancel_unfinished-all_asked [] = refl
  cancel_unfinished-all_asked (unfinished b ∷ ts) = cancel_unfinished-all_asked ts
  cancel_unfinished-all_asked (finished r ∷ ts) = cancel_unfinished-all_asked ts

  pub none_failed-cancel_unfinished :
      (ts : List (Task X)) → none_failed (cancel_unfinished ts) ≡ none_failed ts
  none_failed-cancel_unfinished [] = refl
  none_failed-cancel_unfinished (unfinished b ∷ ts) = none_failed-cancel_unfinished ts
  none_failed-cancel_unfinished (finished (ok x) ∷ ts) = none_failed-cancel_unfinished ts
  none_failed-cancel_unfinished (finished (raise e) ∷ ts) = refl

  pub all_finished-cancel_unfinished :
      (ts : List (Task X)) → all_finished (cancel_unfinished ts) ≡ all_finished ts
  all_finished-cancel_unfinished [] = refl
  all_finished-cancel_unfinished (unfinished b ∷ ts) = refl
  all_finished-cancel_unfinished (finished r ∷ ts) = all_finished-cancel_unfinished ts

  pub Fails-cancel_unfinished :
      (e : Error) (ts : List (Task X)) → Fails e ts → Fails e (cancel_unfinished ts)
  Fails-cancel_unfinished e [] h = elim h [ ]
  Fails-cancel_unfinished e (t ∷ ts) (inl h) = inl (ap cancel_task h)
  Fails-cancel_unfinished e (t ∷ ts) (inr h) = inr (Fails-cancel_unfinished e ts h)

  -- A task that is done stays as it is, so a failure stays.
  pub Fails-end_at :
      (e : Error) (i : ℕ) (r : Result X) (ts : List (Task X)) → Fails e ts → Fails e (end_at i r ts)
  Fails-end_at e zero r [] h = elim h [ ]
  Fails-end_at e (suc i) r [] h = elim h [ ]
  Fails-end_at e zero r (t ∷ ts) (inl h) = inl (ap (end_task r) h)
  Fails-end_at e zero r (t ∷ ts) (inr h) = inr h
  Fails-end_at e (suc i) r (t ∷ ts) (inl h) = inl h
  Fails-end_at e (suc i) r (t ∷ ts) (inr h) = inr (Fails-end_at e i r ts h)

  pub all_asked-end_at :
      (i : ℕ) (r : Result X) (ts : List (Task X))
      → all_asked ts ≡ true
      → all_asked (end_at i r ts) ≡ true
  all_asked-end_at i r [] h = refl
  all_asked-end_at zero r (unfinished b ∷ ts) h = ground arith
  all_asked-end_at zero r (finished q ∷ ts) h = h
  all_asked-end_at (suc i) r (unfinished b ∷ ts) h = ground (arith, all_asked-end_at i r ts)
  all_asked-end_at (suc i) r (finished q ∷ ts) h = all_asked-end_at i r ts h

  pub Reason-end_at :
      (e : Error) (b : Bool) (i : ℕ) (r : Result X) (ts : List (Task X))
      → Reason e b ts
      → Reason e b (end_at i r ts)
  Reason-end_at e b i r ts (inl h) = inl (Fails-end_at e i r ts h)
  Reason-end_at e b i r ts (inr h) = inr h

  pub all_results-all_finished :
      (ts : List (Task X)) (xs : List X) → all_results ts ≡ some xs → all_finished ts ≡ true
  all_results-all_finished [] xs h = refl
  all_results-all_finished (unfinished b ∷ ts) xs h = cc h
  all_results-all_finished (finished (raise e) ∷ ts) xs h = cc h
  all_results-all_finished (finished (ok x) ∷ ts) xs h = elim (Option-cases (all_results ts)) [
    | inl e ↦ cc (sym (ap (Option.map (λ ys. x ∷ ys)) e) ∙ h)
    | inr (ys, e) ↦ all_results-all_finished ts ys e
  ]

  -- Where no task has failed, all have returned exactly when all are done.
  pub none_failed-all_results :
      (ts : List (Task X)) → none_failed ts ≡ true → all_results ts ≡ none → all_finished ts ≡ false
  none_failed-all_results [] n h = cc h
  none_failed-all_results (unfinished b ∷ ts) n h = refl
  none_failed-all_results (finished (raise e) ∷ ts) n h = cc n
  none_failed-all_results (finished (ok x) ∷ ts) n h = elim (Option-cases (all_results ts)) [
    | inl e ↦ none_failed-all_results ts n e
    | inr (ys, e) ↦ cc (sym (ap (Option.map (λ ys. x ∷ ys)) e) ∙ h)
  ]

  pub end_at_finished :
      (i : ℕ) (r : Result X) (ts : List (Task X)) → all_finished ts ≡ true → end_at i r ts ≡ ts
  end_at_finished i r [] h = refl
  end_at_finished i r (unfinished b ∷ ts) h = cc h
  end_at_finished zero r (finished q ∷ ts) h = refl
  end_at_finished (suc i) r (finished q ∷ ts) h =
      ap (λ us. finished q ∷ us) (end_at_finished i r ts h)

  pub none_failed-end_at :
      (i : ℕ) (x : X) (ts : List (Task X))
      → none_failed ts ≡ true
      → none_failed (end_at i (ok x) ts) ≡ true
  none_failed-end_at i x [] h = refl
  none_failed-end_at i x (finished (raise e) ∷ ts) h = cc h
  none_failed-end_at zero x (unfinished b ∷ ts) h = h
  none_failed-end_at zero x (finished (ok y) ∷ ts) h = h
  none_failed-end_at (suc i) x (unfinished b ∷ ts) h = none_failed-end_at i x ts h
  none_failed-end_at (suc i) x (finished (ok y) ∷ ts) h = none_failed-end_at i x ts h

  pub is_unfinished_at-Fails :
      (i : ℕ) (e : Error) (ts : List (Task X))
      → is_unfinished_at i ts ≡ true
      → Fails e (end_at i (raise e) ts)
  is_unfinished_at-Fails i e [] h = cc h
  is_unfinished_at-Fails zero e (unfinished b ∷ ts) h = inl refl
  is_unfinished_at-Fails zero e (finished q ∷ ts) h = cc h
  is_unfinished_at-Fails (suc i) e (t ∷ ts) h = inr (is_unfinished_at-Fails i e ts h)
