-- ===== src/Graph/Stream/Examples.antt =====
-- A stream that is written to, read, and closed, over numbers as chunks.
use apixis.Base.{ℕ, List, [], ◌∷◌}
use apixis.Graph.Stream.Order.{
  Operation, sends, closes, reads, opened, run, IsOrdered, run-IsOrdered,
}

abbrev operations : List (Operation ℕ)
operations = sends 1 ∷ sends 2 ∷ reads ∷ closes ∷ sends 3 ∷ reads ∷ reads ∷ []

stream_example : IsOrdered (run operations opened)
stream_example = run-IsOrdered operations
