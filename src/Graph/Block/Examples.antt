-- ===== src/Graph/Block/Examples.antt =====
-- An interruption that is accepted, resolved, and cancelled too late.
use apixis.Base.{ℕ, List, [], ◌∷◌}
use apixis.Graph.Context.{World, fresh}
use apixis.Graph.Block.Outcomes.{Operation, resolves, accepts, cancels, has_error}

abbrev operations : List (Operation ℕ)
operations = accepts ∷ resolves 5 ∷ cancels ∷ has_error ∷ []

abbrev world : World ℕ ℕ
world = (fresh "g1", 0)
