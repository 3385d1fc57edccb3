-- ===== src/Graph/Gather/Examples.antt =====
-- Three tasks: the second fails while the first is not done; and three that return out of order.
use apixis.Base.{ℕ, List, [], ◌∷◌, ok, raise, user_error, cancelled_error, ◌≡◌, refl}
use apixis.Graph.Gather.{
  ended, gather_tasks, run, perform, finish_task, go_on, Operation, finishes, resumes,
}
use apixis.Graph.Gather.Settled.{Outcome, run-Outcome}

abbrev failing : List (Operation ℕ)
failing =
    finishes 2 (ok 7)
    ∷ finishes 1 (raise user_error)
    ∷ resumes
    ∷ finishes 0 (raise cancelled_error)
    ∷ resumes
    ∷ []

fails : (run failing (gather_tasks 3)).position ≡ ended (raise user_error)
unfolding run perform finish_task go_on gather_tasks
fails = refl

abbrev out_of_order : List (Operation ℕ)
out_of_order = finishes 2 (ok 9) ∷ finishes 0 (ok 7) ∷ finishes 1 (ok 8) ∷ resumes ∷ []

ordered : (run out_of_order (gather_tasks 3)).position ≡ ended (ok (7 ∷ 8 ∷ 9 ∷ []))
unfolding run perform finish_task go_on gather_tasks
ordered = refl

gather_example : Outcome (run failing (gather_tasks 3))
gather_example = run-Outcome failing 3
