-- ===== src/Event/Glob/Literal.antt =====
-- A pattern without wildcards matches its own text and nothing else.
use text.Mathlib.TextEquality.{Char-path}
use apixis.Base.{
  ℕ, String, ◌≡◌, refl, ◌↔◌, Bool, true, not, ◌||◌, List, [], ◌∷◌, map, arith, eqb, length, all,
}
use apixis.Event.Glob.{codes, literal, tokens, matches, fnmatchcase}

abbrev pub is_plain : ℕ → Bool
is_plain c = not (eqb c b'*' || eqb c b'?' || eqb c b'[')

-- No character of the text is `*`, `?` or `[`.
abbrev pub IsLiteral : String → Type 0
IsLiteral s = all is_plain (codes s) ≡ true

tokens_plain : (cs : List ℕ) → all is_plain cs ≡ true → tokens (length cs) cs ≡ map literal cs
unfolding tokens
tokens_plain [] h = refl
tokens_plain (c ∷ cs) h = ground (arith, tokens_plain cs)

matches_sound : (ps cs : List ℕ) → matches (map literal ps) cs ≡ true → ps ≡ cs
unfolding matches
matches_sound [] [] h = refl
matches_sound [] (c ∷ cs) h = cc
matches_sound (p ∷ ps) [] h = cc
matches_sound (p ∷ ps) (c ∷ cs) h = ground (arith, matches_sound ps cs)

matches_self : (ps : List ℕ) → matches (map literal ps) ps ≡ true
unfolding matches
matches_self [] = refl
matches_self (p ∷ ps) = ground (arith, matches_self ps)

pub codes_injective : (s t : String) → codes s ≡ codes t → s ≡ t
codes_injective String.[] String.[] h = refl
codes_injective String.[] (String.◌∷◌ d t) h = cc
codes_injective (String.◌∷◌ c s) String.[] h = cc
codes_injective (String.◌∷◌ c s) (String.◌∷◌ d t) h =
    cc (Char-path c d (cc), codes_injective s t (cc))

pub fnmatchcase_literal :
    (name pattern : String)
    → IsLiteral pattern
    → (fnmatchcase name pattern ≡ true) ↔ (name ≡ pattern)
unfolding fnmatchcase
fnmatchcase_literal name pattern h = rw (tokens_plain (codes pattern) h) (
  λ m. codes_injective name pattern (cc (matches_sound (codes pattern) (codes name) m)),
  λ e. rw e (matches_self (codes pattern)),
)
