-- ===== src/Event/Permits/Examples.antt =====
-- Two permits: one dispatch runs, a second one suspends itself.
use apixis.Base.{ltb, ◌&&◌, not, ℕ, ◌≡◌, refl, arith, true, false, List, [], ◌∷◌, is_ok}
use apixis.Event.Permits.{resume, HandlerChainToken, fresh, suspend, finish, release}
use apixis.Event.Permits.Steps.{System, Step, init, at, Reach, here, next, consume, suspends}
use apixis.Event.Permits.Balance.{IsBalanced, Reach-IsBalanced, Reach-releases_succeed}

abbrev idle : HandlerChainToken
idle = record { held = false; closed = false; suspended = 1; queued = 0; acquiring = false }

abbrev with_value : ℕ → List HandlerChainToken → System
with_value n ts = record { semaphore = record { bound = 2; value = n }; tokens = ts }

takes_first : Step (init 2) (with_value 1 (fresh ∷ []))
takes_first = consume (omega arith) refl refl

takes_second : Step (with_value 1 (fresh ∷ [])) (with_value 0 (fresh ∷ fresh ∷ []))
takes_second = consume (omega arith) refl refl

first_suspends : Step (with_value 0 (fresh ∷ fresh ∷ [])) (with_value 1 (idle ∷ fresh ∷ []))
unfolding suspend release
first_suspends = suspends fresh idle (at [] (fresh ∷ []) refl refl) refl

reached : Reach (init 2) (with_value 1 (idle ∷ fresh ∷ []))
reached = next (next (next here takes_first) takes_second) first_suspends

balanced_example : IsBalanced 2 (with_value 1 (idle ∷ fresh ∷ []))
balanced_example = Reach-IsBalanced 2 reached

releases_example :
    (is_ok (suspend (record { bound = 2; value = 1 }) fresh) ≡ true)
    × (is_ok (finish (record { bound = 2; value = 1 }) fresh) ≡ true)
    × ((ltb 0 1 && not (is_ok (resume (record { bound = 2; value = 1 }) fresh))) ≡ false)
releases_example = Reach-releases_succeed 2 (idle ∷ []) [] fresh reached refl
