-- ===== src/Graph/Gather/Settled.antt =====
-- How `BaseNode._gather_tasks_in_order` of source/apixis/core/graph/node.py can end, and when it does.
use apixis.Base.{
  ℕ, zero, suc, Bool, true, false, List, [], ◌∷◌, Option, none, some, Result, ok, raise,
  if◌then◌else◌, ◌≡◌, refl, sym, ap, arith, inl, inr, ◌∙◌, if_cases,
}
use apixis.Graph.Gather.{
  Task, Place, awaiting, settling, ended, Gathering, all_results, all_finished, outer_of, new_tasks,
  gather_tasks, end_at, tell_outer, is_unfinished_at, finish_task, cancel_caller, go_on, Operation,
  finishes, cancels, resumes, perform, run,
}
use apixis.Graph.Gather.Tasks.{
  all_asked, none_failed, Reason, cancel_unfinished-all_asked, none_failed-cancel_unfinished,
  all_finished-cancel_unfinished, Fails-cancel_unfinished, all_asked-end_at, Reason-end_at,
  all_results-all_finished, none_failed-all_results, end_at_finished, none_failed-end_at,
  is_unfinished_at-Fails,
}

module _ {X : Type 0} where
  abbrev pub Awaits : Option (Result (List X)) → Bool → List (Task X) → Type 0
  Awaits none requested ts = (none_failed ts ≡ true) × (all_finished ts ≡ false)
  Awaits (some (ok xs)) requested ts = all_results ts ≡ some xs
  Awaits (some (raise e)) requested ts = Reason e requested ts

  abbrev pub At : Place X → Option (Result (List X)) → Bool → List (Task X) → Type 0
  At awaiting o requested ts = Awaits o requested ts
  At (settling e) o requested ts = (all_asked ts ≡ true) × Reason e requested ts
  At (ended (ok xs)) o requested ts = all_results ts ≡ some xs
  At (ended (raise e)) o requested ts = (all_finished ts ≡ true) × Reason e requested ts

  abbrev pub IsSettled : Gathering X → Type 0
  IsSettled g = At g.position g.outer g.requested g.tasks

  outer_of-Awaits :
      (o : Option (List X)) (b : Bool) (ts : List (Task X))
      → all_results ts ≡ o
      → none_failed ts ≡ true
      → Awaits (outer_of o b) b ts
  outer_of-Awaits none b ts h n = (n, none_failed-all_results ts n h)
  outer_of-Awaits (some xs) true ts h n = inr (refl, refl)
  outer_of-Awaits (some xs) false ts h n = h

  tell_outer-Awaits :
      (o : Option (Result (List X))) (b : Bool) (ts : List (Task X)) (i : ℕ) (r : Result X)
      → is_unfinished_at i ts ≡ true
      → Awaits o b ts
      → Awaits (tell_outer r b (end_at i r ts) o) b (end_at i r ts)
  tell_outer-Awaits none b ts i (raise e) u h = inl (is_unfinished_at-Fails i e ts u)
  tell_outer-Awaits none b ts i (ok x) u h =
      outer_of-Awaits (all_results (end_at i (ok x) ts)) b (end_at i (ok x) ts) refl
        (none_failed-end_at i x ts h.0)
  tell_outer-Awaits (some (ok xs)) b ts i r u h =
      ap all_results (end_at_finished i r ts (all_results-all_finished ts xs h)) ∙ h
  tell_outer-Awaits (some (raise e)) b ts i r u h = Reason-end_at e b i r ts h

  finish_task-At :
      (p : Place X) (o : Option (Result (List X))) (b : Bool) (ts : List (Task X)) (i : ℕ)
      (r : Result X)
      → is_unfinished_at i ts ≡ true
      → At p o b ts
      → At p (tell_outer r b (end_at i r ts) o) b (end_at i r ts)
  finish_task-At awaiting o b ts i r u h = tell_outer-Awaits o b ts i r u h
  finish_task-At (settling e) o b ts i r u h =
      (all_asked-end_at i r ts h.0, Reason-end_at e b i r ts h.1)
  finish_task-At (ended (ok xs)) o b ts i r u h =
      ap all_results (end_at_finished i r ts (all_results-all_finished ts xs h)) ∙ h
  finish_task-At (ended (raise e)) o b ts i r u h =
      (ap all_finished (end_at_finished i r ts h.0) ∙ h.0, Reason-end_at e b i r ts h.1)

  abbrev gathering : Place X → Option (Result (List X)) → Bool → List (Task X) → Gathering X
  gathering p o b ts = record { tasks = ts; outer = o; requested = b; position = p }

  cancel_caller-At :
      (p : Place X) (o : Option (Result (List X))) (b : Bool) (ts : List (Task X))
      → At p o b ts
      → IsSettled (cancel_caller (gathering p o b ts))
  unfolding cancel_caller
  cancel_caller-At awaiting none b ts h =
      (none_failed-cancel_unfinished ts ∙ h.0, all_finished-cancel_unfinished ts ∙ h.1)
  cancel_caller-At awaiting (some r) b ts h = inr (refl, refl)
  cancel_caller-At (settling e) o b ts h = (cancel_unfinished-all_asked ts, inr (refl, refl))
  cancel_caller-At (ended r) o b ts h = h

  go_on-At :
      (p : Place X) (o : Option (Result (List X))) (b : Bool) (ts : List (Task X))
      → At p o b ts
      → IsSettled (go_on (gathering p o b ts))
  unfolding go_on
  go_on-At awaiting none b ts h = h
  go_on-At awaiting (some (ok xs)) b ts h = h
  go_on-At awaiting (some (raise e)) b ts (inl h) =
      (cancel_unfinished-all_asked ts, inl (Fails-cancel_unfinished e ts h))
  go_on-At awaiting (some (raise e)) b ts (inr h) = (cancel_unfinished-all_asked ts, inr h)
  go_on-At (settling e) o b ts h =
      if_cases (λ q. IsSettled q) (all_finished ts) _ _ (λ end. (end, h.1)) (λ no'. h)
  go_on-At (ended r) o b ts h = h

  perform-IsSettled : (op : Operation X) (g : Gathering X) → IsSettled g → IsSettled (perform op g)
  unfolding perform finish_task
  perform-IsSettled (finishes i r) g h =
      if_cases (λ q. IsSettled q) (is_unfinished_at i g.tasks) _ _
        (λ u. finish_task-At g.position g.outer g.requested g.tasks i r u h) (λ no'. h)
  perform-IsSettled cancels g h = cancel_caller-At g.position g.outer g.requested g.tasks h
  perform-IsSettled resumes g h = go_on-At g.position g.outer g.requested g.tasks h

  run-IsSettled : (ops : List (Operation X)) (g : Gathering X) → IsSettled g → IsSettled (run ops g)
  unfolding run
  run-IsSettled [] g h = h
  run-IsSettled (op ∷ ops) g h = run-IsSettled ops (perform op g) (perform-IsSettled op g h)

  abbrev pub has_ended : Gathering X → Bool
  has_ended g = elim g.position [ ended r ↦ true | _ ↦ false ]

  two_turns :
      (p : Place X) (o : Option (Result (List X))) (b : Bool) (ts : List (Task X))
      → At p o b ts
      → has_ended (go_on (go_on (gathering p o b ts))) ≡ all_finished ts
  unfolding go_on
  two_turns awaiting none b ts h = sym h.1
  two_turns awaiting (some (ok xs)) b ts h = sym (all_results-all_finished ts xs h)
  two_turns awaiting (some (raise e)) b ts h = ground (arith, all_finished-cancel_unfinished ts)
  two_turns (settling e) o b ts h = settles (all_finished ts) refl
    where
      next : Bool → Gathering X
      next end = if end then gathering (ended (raise e)) o b ts else gathering (settling e) o b ts

      settles : (end : Bool) → all_finished ts ≡ end → has_ended (go_on (next end)) ≡ end
      settles true a = refl
      settles false a = rw a refl
  two_turns (ended (ok xs)) o b ts h = sym (all_results-all_finished ts xs h)
  two_turns (ended (raise e)) o b ts h = sym h.0

  -- The first `gather` of `n` tasks, whatever the tasks and the canceller of the caller have done.
  abbrev pub Outcome : Gathering X → Type 0
  Outcome g = IsSettled g × (has_ended (go_on (go_on g)) ≡ all_finished g.tasks)

none_failed-new_tasks : (X : Type 0) (n : ℕ) → none_failed {X = X} (new_tasks n) ≡ true
none_failed-new_tasks X zero = refl
none_failed-new_tasks X (suc n) = none_failed-new_tasks X n

gather_tasks-IsSettled : (X : Type 0) (n : ℕ) → IsSettled {X = X} (gather_tasks n)
unfolding gather_tasks
gather_tasks-IsSettled X n =
    outer_of-Awaits (all_results (new_tasks n)) false (new_tasks n) refl (none_failed-new_tasks X n)

-- However `n` tasks and the caller's cancellation go on, in any order: `_gather_tasks_in_order` ends
-- only when all tasks are done. If it returns, then with the results of all tasks, in the order of the
-- tasks; if it raises, then an exception that a task has raised, or CancelledError after a
-- cancellation of the caller, and from then on each task that was not done has been cancelled. And
-- once all tasks are done, two more turns of the coroutine end it.
pub run-Outcome :
    {X : Type 0} (ops : List (Operation X)) (n : ℕ) → Outcome (run ops (gather_tasks n))
run-Outcome {X} ops n =
    let settled = run-IsSettled ops (gather_tasks n) (gather_tasks-IsSettled X n) in
    let g = run ops (gather_tasks n) in
    (settled, two_turns g.position g.outer g.requested g.tasks settled)
