-- ===== src/Graph/Runtime/Targets.antt =====
-- What `NodeGraph._validate_target` accepts (source/apixis/core/graph/node_graph.py).
use apixis.Base.{
  ℕ, String, Bool, true, false, not, ◌&&◌, List, [], ◌∷◌, Result, ok, raise, recursion_error,
  >>=-eq-ok, ◌==◌, string_eq, if_cases, Bool-cases, inl, inr, ◌⊎◌, contains, contains-dedup,
  IsUnique, IsUnique-dedup, dedup, select, all, ltb, ◌<◌, ◌≡◌, refl, arith, subst, ◌∙◌,
}
use apixis.Base.Int.{pos, negsuc}
use apixis.Graph.Command.{Goto, nowhere, not_goto, to, to_all, end_name}
use apixis.Graph.Commands.{Target, one, batch}
use apixis.Graph.Runtime.{
  NodeGraph, Steps, int, not_int, normalise_batch, normalise_target, is_end, within_budget,
  validate_target,
}

abbrev pub batch_of : Target → List String
batch_of (one name) = name ∷ []
batch_of (batch names) = names

abbrev pub names_given : List String → Bool
names_given [] = false
names_given (n ∷ names) = true

-- A batch of nodes of the graph: at least one, each once, `END` not among them.
abbrev pub IsBatch : NodeGraph → List String → Type 0
IsBatch g names =
    ((contains end_name names) ≡ false)
    × (IsUnique names)
    × (all (λ n. contains n g.nodes) names ≡ true)
    × (names_given names ≡ true)

-- A target that may be dispatched after `n` steps.
abbrev pub IsRunnable : NodeGraph → ℕ → Target → Type 0
IsRunnable g n t = (is_end t ≡ true) ⊎ ((n < g.max_steps) × IsBatch g (batch_of t))

abbrev IsNormal : NodeGraph → Result Target → Type 0
IsNormal g (ok t) = (is_end t ≡ true) ⊎ IsBatch g (batch_of t)
IsNormal g (raise e) = Unit

select-no_end :
    (names : List String) → contains end_name (select (λ n. not (n == end_name)) names) ≡ false
select-no_end [] = refl
select-no_end (n ∷ names) = ground (arith, select-no_end names, string_eq.beq_iff n end_name)

batch-IsNormal :
    (g : NodeGraph) (names : List String)
    → contains end_name names ≡ false
    → IsUnique names
    → IsNormal g (normalise_batch g names)
batch-IsNormal g [] h u = inl refl
batch-IsNormal g (n ∷ names) h u = elim (Bool-cases (all (λ m. contains m g.nodes) (n ∷ names))) [
  | inl yes' ↦ rw (yes') (inr (h, u, yes', refl))
  | inr no' ↦ rw (no') tt
]

normalise_target-IsNormal : (g : NodeGraph) (t : Goto) → IsNormal g (normalise_target g t)
unfolding normalise_target
normalise_target-IsNormal g nowhere = inl refl
normalise_target-IsNormal g not_goto = tt
normalise_target-IsNormal g (to name) =
    if_cases (IsNormal g) (name == end_name) _ _ (λ last. inl refl)
      (λ more. elim (Bool-cases (all (λ m. contains m g.nodes) (name ∷ []))) [
        | inl yes' ↦ rw (yes') (inr (ground arith, (refl, tt), yes', refl))
        | inr no' ↦ rw (no') tt
      ])
normalise_target-IsNormal g (to_all names) =
    batch-IsNormal g (dedup (select (λ n. not (n == end_name)) names))
      (contains-dedup end_name (select (λ n. not (n == end_name)) names) ∙ select-no_end names)
      (IsUnique-dedup (select (λ n. not (n == end_name)) names))

ok_injective : {x y : Target} → ok x ≡ ok y → x ≡ y
ok_injective h = cc h

-- A target that passes is the end, or it names nodes of the graph, at least one, each once and `END`
-- not among them, after a number of steps that is an `int`, is not negative and is below the
-- graph's maximum.
pub validate_target-IsRunnable :
    (g : NodeGraph) (t : Goto) (steps : Steps) (u : Target)
    → validate_target g t steps ≡ ok u
    → (n : ℕ) × (steps ≡ int (pos n)) × IsRunnable g n u
unfolding validate_target
validate_target-IsRunnable g t not_int u h = cc h
validate_target-IsRunnable g t (int (negsuc n)) u h = cc h
validate_target-IsRunnable g t (int (pos n)) u h =
    let (v, normal, fits) = >>=-eq-ok (normalise_target g t) (within_budget g n) h in
    (n, refl, fitting v (subst (IsNormal g) normal (normalise_target-IsNormal g t)) fits)
  where
    runnable :
        (v : Target)
        → IsNormal g (ok v)
        → (not (is_end v) && not (ltb n g.max_steps)) ≡ false
        → IsRunnable g n v
    runnable v (inl last) k = inl last
    runnable v (inr b) k = elim (Bool-cases (is_end v)) [
      | inl last ↦ inl last
      | inr more ↦ inr (ground (arith, more, k), b)
    ]

    fitting : (v : Target) → IsNormal g (ok v) → within_budget g n v ≡ ok u → IsRunnable g n u
    fitting v normal' =
        if_cases (λ q. q ≡ ok u → IsRunnable g n u) (not (is_end v) && not (ltb n g.max_steps))
          (raise recursion_error) (ok v) (λ over k. cc k)
          (λ fits' k. subst (IsRunnable g n) (ok_injective k) (runnable v normal' fits'))
