-- ===== src/Graph/Namespace/Isolation.antt =====
-- The names of a graph's events as subscription patterns (source/apixis/core/graph/utils/namespace.py).
use Prim.Native.String.append
use Prim.Native.Char
use apixis.Base.{
  ℕ, zero, suc, String, Bool, true, false, ◌&&◌, List, [], ◌∷◌, ◌++◌, ok, ◌≡◌, refl, ap, ◌∙◌, sym,
  ◌↔◌, arith, any, all, eqb, inl, inr, Bool-cases,
}
use apixis.Event.Glob.{codes, fnmatchcase}
use apixis.Event.Glob.Literal.{is_plain, IsLiteral, codes_injective, fnmatchcase_literal}
use apixis.Graph.Namespace.{
  is_glob, validate_namespace, graph_dispatch, graph_interrupted, qualified,
}

codes-append : (s t : String) → codes (Prim.Native.String.◌++◌ s t) ≡ codes s ++ codes t
codes-append String.[] t = ap codes (append.nil t)
codes-append (String.◌∷◌ c s) t =
    ap codes (append.cons c s t) ∙ ap (λ cs. Prim.Native.Char.code c ∷ cs) (codes-append s t)

all-append : (p : ℕ → Bool) (xs ys : List ℕ) → all p (xs ++ ys) ≡ (all p xs && all p ys)
all-append p [] ys = refl
all-append p (x ∷ xs) ys = ground (arith, all-append p xs ys)

plain_codes : (cs : List ℕ) → any is_glob cs ≡ false → all is_plain cs ≡ true
plain_codes [] h = refl
plain_codes (c ∷ cs) h = ground (arith, h, plain_codes cs)

drop_prefix : (xs : List ℕ) {ys zs : List ℕ} → xs ++ ys ≡ xs ++ zs → ys ≡ zs
drop_prefix [] h = h
drop_prefix (x ∷ xs) h = drop_prefix xs (cc h)

validate-plain :
    (namespace : String)
    → validate_namespace namespace ≡ ok tt
    → all is_plain (codes namespace) ≡ true
unfolding validate_namespace
validate-plain namespace h = plain_codes (codes namespace) (ground (arith, h))

codes-qualified :
    (base namespace : String)
    → codes (qualified base namespace) ≡ codes base ++ (95 ∷ codes namespace)
codes-qualified base namespace =
    codes-append base (Prim.Native.String.◌++◌ "_" namespace)
    ∙ ap (λ cs. codes base ++ cs) (codes-append "_" namespace)

qualified-IsLiteral :
    (base namespace : String)
    → all is_plain (codes base) ≡ true
    → validate_namespace namespace ≡ ok tt
    → IsLiteral (qualified base namespace)
qualified-IsLiteral base namespace plain valid =
    ap (all is_plain) (codes-qualified base namespace)
    ∙ all-append is_plain (codes base) (95 ∷ codes namespace)
    ∙ cc (plain, validate-plain namespace valid)

qualified_injective : (base a b : String) → qualified base a ≡ qualified base b → a ≡ b
qualified_injective base a b h =
    let same : codes base ++ (95 ∷ codes a) ≡ codes base ++ (95 ∷ codes b) =
      sym (codes-qualified base a) ∙ ap codes h ∙ codes-qualified base b in
    codes_injective a b (cc (drop_prefix (codes base) same))

-- The ninth characters of the two bases are different.
distinct_bases : (xs ys : List ℕ) → codes graph_interrupted ++ xs ≡ codes graph_dispatch ++ ys → ⊥
distinct_bases xs ys h = let clash : true ≡ false = ap (has_at 8 105) h in cc clash
  where
    has_at : ℕ → ℕ → List ℕ → Bool
    has_at n c [] = false
    has_at zero c (x ∷ xs) = eqb x c
    has_at (suc n) c (x ∷ xs) = has_at n c xs

distinct_names : (a b : String) → qualified graph_interrupted a ≡ qualified graph_dispatch b → ⊥
distinct_names a b h =
    distinct_bases (95 ∷ codes a) (95 ∷ codes b)
      (sym (codes-qualified graph_interrupted a) ∙ ap codes h ∙ codes-qualified graph_dispatch b)

module _ (a b : String) (valid : validate_namespace b ≡ ok tt) where
  matches_qualified :
      (base : String)
      → all is_plain (codes base) ≡ true
      → (fnmatchcase (qualified base a) (qualified base b) ≡ true) ↔ (a ≡ b)
  matches_qualified base plain =
      let literal' =
        fnmatchcase_literal (qualified base a) (qualified base b)
          (qualified-IsLiteral base b plain valid) in
      (λ h. qualified_injective base a b (literal'.0 h), λ e. literal'.1 (ap (qualified base) e))

  apart :
      (base other : String)
      → all is_plain (codes other) ≡ true
      → (qualified base a ≡ qualified other b → ⊥)
      → fnmatchcase (qualified base a) (qualified other b) ≡ false
  apart base other plain differ =
      elim (Bool-cases (fnmatchcase (qualified base a) (qualified other b))) [
        | inl yes' ↦ absurd (
            differ (
              (fnmatchcase_literal (qualified base a) (qualified other b)
                  (qualified-IsLiteral other b plain valid)).0
                yes'))
        | inr no' ↦ no'
      ]

  -- A pattern that a graph subscribes under a valid namespace takes the dispatch events, or the
  -- interruption events, of that namespace and of no other.
  pub fnmatchcase-qualified :
      ((fnmatchcase (qualified graph_dispatch a) (qualified graph_dispatch b) ≡ true) ↔ (a ≡ b))
      × ((fnmatchcase (qualified graph_interrupted a) (qualified graph_interrupted b) ≡ true)
          ↔ (a ≡ b))
      × (fnmatchcase (qualified graph_interrupted a) (qualified graph_dispatch b) ≡ false)
      × (fnmatchcase (qualified graph_dispatch a) (qualified graph_interrupted b) ≡ false)
  fnmatchcase-qualified = (
    matches_qualified graph_dispatch refl,
    matches_qualified graph_interrupted refl,
    apart graph_interrupted graph_dispatch refl (distinct_names a b),
    apart graph_dispatch graph_interrupted refl (λ e. distinct_names b a (sym e)),
  )
