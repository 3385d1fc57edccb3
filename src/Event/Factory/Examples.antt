-- ===== src/Event/Factory/Examples.antt =====
-- A getter at import time, then inside asyncio, and the startup task that runs.
use apixis.Base.{ℕ, Bool, nat_eq, ◌==◌, if◌then◌else◌, true, false, some, none, ◌≡◌, refl, arith}
use apixis.Base.Dict.{get, put, del}
use apixis.Event.Pipe.{open_pipe}
use apixis.Event.Loop.{start}
use apixis.Event.Factory.{
  EventCore, Factory, imported, event_pipe, event_loop, get_component, get_core, new_core, got,
  ensure_started, run_start, start_components,
}
use apixis.Event.Factory.Once.{FactoryReach, here, next, gets, runs, IsFresh}
use apixis.Event.Factory.Reach.{OneTask, Kept, Reach-single}
use apixis.Event.Factory.Starts.{Serves, started_at, get_component-Serves}

abbrev registered : Factory
registered = (get_component 16 128 false 0 0 event_pipe none imported).0

abbrev booked : Factory
booked = (get_component 16 128 true 1 7 event_loop none registered).0

abbrev running : Factory
running = run_start 7 3 booked

starts : started_at 0 running ≡ true
unfolding get_component get_core new_core got ensure_started run_start start_components start
    open_pipe get put del
starts = refl

without_task :
    (b : Bool) (d c : EventCore) (t : ℕ)
    → d.start_task ≡ none
    → (if b then some d else none) ≡ some c
    → c.start_task ≡ some t
    → ⊥
without_task true d c t idle e names = cc (idle, e, names)
without_task false d c t idle e names = cc e

fresh : IsFresh registered 7
unfolding get_component get_core new_core got ensure_started open_pipe get put
fresh = (refl, λ k c h. without_task (0 == k) _ c 7 refl h)

reaches : FactoryReach 16 128 imported booked
unfolding get_component get_core new_core got ensure_started open_pipe get put
reaches =
    next (next here (gets false 0 0 event_pipe none refl (refl, λ k c h. cc h)))
      (gets true 1 7 event_loop none refl fresh)

single_example :
    OneTask 7 7 (get 7 booked.unfinished) (get 7 booked.unfinished) × Kept booked.core running.core
unfolding get_component get_core new_core got ensure_started open_pipe get put
single_example = Reach-single 16 128 booked running 7 7 reaches (next here (runs 7 3))

getter_example : Serves none event_loop (get_component 16 128 true 1 7 event_loop none registered)
unfolding get_component get_core new_core got ensure_started open_pipe get put
getter_example =
    get_component-Serves 16 128 (omega arith) registered 1 7 event_loop none
      (next here (gets false 0 0 event_pipe none refl (refl, λ k c h. cc h))) refl fresh
      (λ k h. cc h)
