-- ===== src/Base/Lists.antt =====
-- Python lists: membership, position, insertion and removal by position, first occurrences.
use Prim.Native.Nat.{ℕ, zero, suc, ◌+◌}
use mathlib.Core.Path.{◌≡◌, refl, ◌∙◌}
use mathlib.Core.Bool.{Bool, true, false, ◌||◌, ◌&&◌}
use mathlib.Core.Option.{Option, none, some}
use mathlib.Core.Option
use mathlib.Core.List.{List, [], ◌∷◌, ◌++◌}
use native.Mathlib.Omega.{arith}
use apixis.Base.Tests.{if◌then◌else◌, is_some, Option-cases}
use apixis.Base.Equality.{Eq, ◌==◌}

module _ {ℓ} {A : Type ℓ} where
  abbrev pub length : List A → ℕ
  length [] = 0
  length (x ∷ xs) = suc (length xs)

  pub length-append : (xs ys : List A) → length (xs ++ ys) ≡ length xs + length ys
  length-append [] ys = omega arith
  length-append (x ∷ xs) ys = omega (arith, length-append xs ys)

  -- `l.insert(i, x)`, which appends when `i` is past the end.
  abbrev pub insert_at : ℕ → A → List A → List A
  insert_at zero a xs = a ∷ xs
  insert_at (suc i) a [] = a ∷ []
  insert_at (suc i) a (x ∷ xs) = x ∷ insert_at i a xs

  -- `l.pop(i)` for an index in range, its result dropped.
  abbrev pub remove_at : ℕ → List A → List A
  remove_at i [] = []
  remove_at zero (x ∷ xs) = xs
  remove_at (suc i) (x ∷ xs) = x ∷ remove_at i xs

  abbrev pub select : (A → Bool) → List A → List A
  select p [] = []
  select p (x ∷ xs) = let rest = select p xs in if p x then x ∷ rest else rest

  abbrev pub any : (A → Bool) → List A → Bool
  any p [] = false
  any p (x ∷ xs) = p x || any p xs

  abbrev pub all : (A → Bool) → List A → Bool
  all p [] = true
  all p (x ∷ xs) = p x && all p xs

  abbrev pub All {κ} : (A → Type κ) → List A → Type κ
  All P [] = Unit
  All P (x ∷ xs) = P x × All P xs

  pub select-append :
      (p : A → Bool) (xs ys : List A) → select p (xs ++ ys) ≡ select p xs ++ select p ys
  select-append p [] ys = refl
  select-append p (x ∷ xs) ys = ground (arith, select-append p xs ys)

module _ {ℓ} {A : Type ℓ} ⦃e : Eq A⦄ where
  -- `x in l`
  abbrev pub contains : A → List A → Bool
  contains a [] = false
  contains a (x ∷ xs) = x == a || contains a xs

  -- `l.index(x)`, where `none` is the `ValueError`.
  abbrev pub index_of : A → List A → Option ℕ
  index_of a [] = none
  index_of a (x ∷ xs) = let rest = index_of a xs in if x == a then some 0 else Option.map suc rest

  -- The list without the items equal to `a`.
  abbrev pub without : A → List A → List A
  without a [] = []
  without a (x ∷ xs) = let rest = without a xs in if x == a then rest else x ∷ rest

  -- `list(dict.fromkeys(l))`: the first occurrence of each item, in order.
  abbrev pub dedup : List A → List A
  dedup [] = []
  dedup (x ∷ xs) = x ∷ without x (dedup xs)

  pub contains-append :
      (a : A) (xs ys : List A) → contains a (xs ++ ys) ≡ (contains a xs || contains a ys)
  contains-append a [] ys = refl
  contains-append a (x ∷ xs) ys = ground (arith, contains-append a xs ys)

  pub contains-without :
      (a b : A) (xs : List A)
      → contains a (without b xs) ≡ (if b == a then false else contains a xs)
  contains-without a b [] = ground arith
  contains-without a b (x ∷ xs) =
      ground (arith, contains-without a b xs, e.beq_iff x b, e.beq_iff x a, e.beq_iff b a)

  pub contains-dedup : (a : A) (xs : List A) → contains a (dedup xs) ≡ contains a xs
  contains-dedup a [] = refl
  contains-dedup a (x ∷ xs) = ground (arith, contains-dedup a xs, contains-without a x (dedup xs))

  pub without_absent : (a : A) (xs : List A) → contains a xs ≡ false → without a xs ≡ xs
  without_absent a [] h = refl
  without_absent a (x ∷ xs) h = ground (arith, without_absent a xs)

  pub without-append :
      (a : A) (xs ys : List A) → without a (xs ++ ys) ≡ without a xs ++ without a ys
  without-append a [] ys = refl
  without-append a (x ∷ xs) ys = ground (arith, without-append a xs ys)

  -- Every item stands once.
  abbrev pub IsUnique : List A → Type ℓ
  IsUnique [] = Unit
  IsUnique (x ∷ xs) = (contains x xs ≡ false) × IsUnique xs

  pub is_some-index_of : (a : A) (xs : List A) → is_some (index_of a xs) ≡ contains a xs
  is_some-index_of a [] = refl
  is_some-index_of a (x ∷ xs) = ground (arith, is_some-index_of a xs)

  pub contains-remove_at :
      (a b : A) (i : ℕ) (xs : List A)
      → index_of b xs ≡ some i
      → (b == a) ≡ false
      → contains a (remove_at i xs) ≡ contains a xs
  contains-remove_at a b i [] h k = cc
  contains-remove_at a b zero (x ∷ xs) h k =
      ground (arith, e.beq_iff x b, Option-cases (index_of b xs))
  contains-remove_at a b (suc i) (x ∷ xs) h k =
      ground (arith, contains-remove_at a b i xs, Option-cases (index_of b xs))

  pub IsUnique-without : (a : A) (xs : List A) → IsUnique xs → IsUnique (without a xs)
  IsUnique-without a [] h = tt
  IsUnique-without a (x ∷ xs) h = ground (arith, IsUnique-without a xs h.1, contains-without x a xs)

  pub IsUnique-snoc :
      (a : A) (xs : List A) → contains a xs ≡ false → IsUnique xs → IsUnique (xs ++ a ∷ [])
  IsUnique-snoc a [] h u = (refl, tt)
  IsUnique-snoc a (x ∷ xs) h u = (
    contains-append x xs (a ∷ []) ∙ ground (arith, e.beq_iff x a, e.beq_iff a x),
    IsUnique-snoc a xs (ground arith) u.1,
  )

  pub IsUnique-dedup : (xs : List A) → IsUnique (dedup xs)
  IsUnique-dedup [] = tt
  IsUnique-dedup (x ∷ xs) = (
    contains-without x x (dedup xs) ∙ ground (arith, e.beq_iff x x),
    IsUnique-without x (dedup xs) (IsUnique-dedup xs),
  )
