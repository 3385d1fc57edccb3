-- ===== src/Base/Dict.antt =====
-- Python's `dict`: an association list in insertion order, where a write to a present key keeps its
-- place.
use mathlib.Core.Path.{◌≡◌, refl, ◌∙◌}
use mathlib.Core.Bool.{Bool}
use mathlib.Core.Option.{Option, none, some}
use mathlib.Core.List.{List, [], ◌∷◌, ◌++◌, map}
use native.Mathlib.Omega.{arith}
use apixis.Base.Tests.{if◌then◌else◌, is_some, Bool-cases}
use mathlib.Core.Logic.{inl, inr}
use apixis.Base.Equality.{Eq, ◌==◌}
use apixis.Base.Lists.{contains, without, select, IsUnique, IsUnique-snoc, IsUnique-without}

abbrev pub Dict {ℓ κ} : Type ℓ → Type κ → Type (ℓ ⊔ κ)
Dict K V = List (K × V)

module _ {ℓ κ} {K : Type ℓ} {V : Type κ} where
  abbrev pub keys : Dict K V → List K
  keys = map (λ p. p.0)

module _ {ℓ κ} {K : Type ℓ} {V : Type κ} ⦃e : Eq K⦄ where
  -- `d.get(k)`
  unfoldable pub get : K → Dict K V → Option V
  get k [] = none
  get k ((j, v) ∷ d) = if j == k then some v else get k d

  -- `k in d`
  abbrev pub has : K → Dict K V → Bool
  has k d = is_some (get k d)

  -- `d[k] = v`
  unfoldable pub put : K → V → Dict K V → Dict K V
  put k v [] = (k, v) ∷ []
  put k v ((j, w) ∷ d) = let rest = put k v d in if j == k then (j, v) ∷ d else (j, w) ∷ rest

  -- `d.pop(k, None)`, and `del d[k]` where `k` is present
  unfoldable pub del : K → Dict K V → Dict K V
  del k [] = []
  del k ((j, w) ∷ d) = let rest = del k d in if j == k then rest else (j, w) ∷ rest

  pub get-put :
      (k j : K) (v : V) (d : Dict K V) → get j (put k v d) ≡ (if k == j then some v else get j d)
  unfolding get put
  get-put k j v [] = refl
  get-put k j v ((i, w) ∷ d) =
      ground (arith, get-put k j v d, e.beq_iff k j, e.beq_iff i k, e.beq_iff i j)

  pub get-del : (k j : K) (d : Dict K V) → get j (del k d) ≡ (if k == j then none else get j d)
  unfolding get del
  get-del k j [] = ground arith
  get-del k j ((i, w) ∷ d) =
      ground (arith, get-del k j d, e.beq_iff k j, e.beq_iff i k, e.beq_iff i j)

  pub keys-del : (k : K) (d : Dict K V) → keys (del k d) ≡ without k (keys d)
  unfolding del
  keys-del k [] = refl
  keys-del k ((i, w) ∷ d) = ground (arith, keys-del k d)

  -- A key is listed exactly when it has a value.
  pub contains-keys : (k : K) (d : Dict K V) → contains k (keys d) ≡ has k d
  unfolding get
  contains-keys k [] = refl
  contains-keys k ((i, w) ∷ d) = ground (arith, contains-keys k d)

  pub keys-put :
      (k : K) (v : V) (d : Dict K V)
      → keys (put k v d) ≡ (if has k d then keys d else keys d ++ k ∷ [])
  unfolding get put
  keys-put k v [] = refl
  keys-put k v ((i, w) ∷ d) = ground (arith, keys-put k v d)

  pub IsUnique-put :
      (k : K) (v : V) (d : Dict K V) → IsUnique (keys d) → IsUnique (keys (put k v d))
  IsUnique-put k v d u = elim (Bool-cases (has k d)) [
    | inl old ↦ rw (keys-put k v d, old) u
    | inr new ↦ rw (keys-put k v d, new) (IsUnique-snoc k (keys d) (contains-keys k d ∙ new) u)
  ]

  pub IsUnique-del : (k : K) (d : Dict K V) → IsUnique (keys d) → IsUnique (keys (del k d))
  IsUnique-del k d u = rw (keys-del k d) (IsUnique-without k (keys d) u)

  -- A selection by keys reads as the dictionary where the key is kept.
  pub get-select :
      (p : K → Bool) (k : K) (d : Dict K V)
      → get k (select (λ x. p x.0) d) ≡ (if p k then get k d else none)
  unfolding get
  get-select p k [] = ground arith
  get-select p k ((j, v) ∷ d) = ground (arith, get-select p k d, e.beq_iff j k)
