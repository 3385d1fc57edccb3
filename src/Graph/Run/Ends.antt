-- ===== src/Graph/Run/Ends.antt =====
-- The operations that end the run of a context (source/apixis/core/graph/node_graph.py).
use apixis.Base.{
  true, false, Option, none, some, Error, string_eq, nat_eq, is_some, ◌≡◌, refl, sym, subst,
}
use apixis.Graph.Context.{
  GraphContext, World, Status, pending, running, failed, aborted, finished, Completion, is_running,
  finish, fail, cancel, transition_to,
}

pub running_status : (s : Status) → is_running s ≡ true → s ≡ running
running_status pending h = cc h
running_status running h = refl
running_status failed h = cc h
running_status aborted h = cc h
running_status finished h = cc h

module _ {A R : Type 0} where
  -- The ends of a running context.
  abbrev pub HasEnded : World A R → Type 0
  HasEnded w = is_running w.0.status ≡ false

  fail_running_ends :
      (e : Error) (c : GraphContext A R) (f : Option (R → R)) (r : R)
      → HasEnded (fail e (record c { status = running; on_terminal = f }, r)).0
  unfolding fail transition_to
  fail_running_ends e c none r = refl
  fail_running_ends e c (some f) r = refl

  pub fail-HasEnded :
      (e : Error) (c : GraphContext A R) (r : R)
      → is_running c.status ≡ true
      → HasEnded (fail e (c, r)).0
  fail-HasEnded e c r h =
      subst (λ s. HasEnded (fail e (record c { status = s }, r)).0)
        (sym (running_status c.status h)) (fail_running_ends e c c.on_terminal r)

  cancel_running_ends :
      (c : GraphContext A R) (f : Option (R → R)) (r : R)
      → HasEnded (cancel (record c { status = running; on_terminal = f }, r)).0
  unfolding cancel transition_to
  cancel_running_ends c none r = refl
  cancel_running_ends c (some f) r = refl

  pub cancel-HasEnded :
      (c : GraphContext A R) (r : R) → is_running c.status ≡ true → HasEnded (cancel (c, r)).0
  cancel-HasEnded c r h =
      subst (λ s. HasEnded (cancel (record c { status = s }, r)).0)
        (sym (running_status c.status h)) (cancel_running_ends c c.on_terminal r)

  finish_running_ends :
      (c : GraphContext A R) (k : Option (Completion A)) (f : Option (R → R)) (r : R)
      → is_some k ≡ true
      → HasEnded (finish (record c { status = running; completion = k; on_terminal = f }, r)).0
  unfolding finish transition_to
  finish_running_ends c none f r h = cc h
  finish_running_ends c (some k) none r h = refl
  finish_running_ends c (some k) (some f) r h = refl

  pub finish-HasEnded :
      (c : GraphContext A R) (r : R)
      → is_running c.status ≡ true
      → is_some c.completion ≡ true
      → HasEnded (finish (c, r)).0
  finish-HasEnded c r h k =
      subst (λ s. HasEnded (finish (record c { status = s }, r)).0)
        (sym (running_status c.status h)) (finish_running_ends c c.completion c.on_terminal r k)
