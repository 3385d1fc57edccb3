-- ===== src/Event/Glob.antt =====
-- `fnmatch.fnmatchcase` of Python's standard library, by which
-- source/apixis/core/event/handler_registry.py matches subscriptions and filters.
-- A class that begins with an empty range and goes on with `!` is read as not negated.
pub mod Literal
use Prim.Native.Char.{code}
use mathlib.Core.Option
use apixis.Base.{
  ℕ, zero, suc, String, Bool, true, false, not, ◌&&◌, ◌||◌, List, [], ◌∷◌, Option, none, some, leb,
  eqb, length, any, if◌then◌else◌,
}

-- The code points of a text.
abbrev pub codes : String → List ℕ
codes String.[] = []
codes (String.◌∷◌ c s) = code c ∷ codes s

-- A class holds ranges of code points; a single character is a range of one.
pub data Token : Type 0 where
  run one : Token
  literal : ℕ → Token
  class : Bool → List (ℕ × ℕ) → Token

-- The characters up to the closing bracket, and those behind it.
until_close : List ℕ → Option (List ℕ × List ℕ)
until_close [] = none
until_close (c ∷ cs) =
    let rest = until_close cs in
    if eqb c b']' then some ([], cs) else Option.map (λ p. (c ∷ p.0, p.1)) rest

-- The first character of a class never closes it.
class_body : List ℕ → Option (List ℕ × List ℕ)
unfolding until_close
class_body [] = none
class_body (c ∷ cs) = Option.map (λ p. (c ∷ p.0, p.1)) (until_close cs)

ranges : List ℕ → List (ℕ × ℕ)
ranges (a ∷ d ∷ b ∷ cs) =
    let wide = ranges cs in
    let narrow = ranges (d ∷ b ∷ cs) in if eqb d b'-' then (a, b) ∷ wide else (a, a) ∷ narrow
ranges (a ∷ d ∷ []) = (a, a) ∷ (d, d) ∷ []
ranges (a ∷ []) = (a, a) ∷ []
ranges [] = []

class_of : List ℕ → Option (Token × List ℕ)
unfolding class_body ranges
class_of [] = none
class_of (c ∷ cs) =
    if eqb c b'!'
    then Option.map (λ p. (class true (ranges p.0), p.1)) (class_body cs)
    else Option.map (λ p. (class false (ranges p.0), p.1)) (class_body (c ∷ cs))

-- The fuel is the length of the pattern, and each token takes a character at least.
tokens : ℕ → List ℕ → List Token
unfolding class_of
tokens zero p = []
tokens (suc f) [] = []
tokens (suc f) (c ∷ cs) =
    let rest = tokens f cs in
    if eqb c b'*'
    then run ∷ rest
    else if eqb c b'?'
    then one ∷ rest
    else if eqb c b'['
    then (elim (class_of cs) [ none ↦ literal c ∷ rest | some (t, after) ↦ t ∷ tokens f after ])
    else literal c ∷ rest

takes : Token → ℕ → Bool
takes run c = true
takes one c = true
takes (literal d) c = eqb d c
takes (class negated rs) c =
    let inside = any (λ r. leb r.0 c && leb c r.1) rs in if negated then not inside else inside

-- Some suffix of the text passes.
some_suffix : (List ℕ → Bool) → List ℕ → Bool
some_suffix p [] = p []
some_suffix p (c ∷ cs) = p (c ∷ cs) || some_suffix p cs

matches : List Token → List ℕ → Bool
unfolding takes some_suffix
matches [] [] = true
matches [] (c ∷ cs) = false
matches (run ∷ ts) cs = some_suffix (matches ts) cs
matches (t ∷ ts) [] = false
matches (t ∷ ts) (c ∷ cs) = takes t c && matches ts cs

unfoldable pub fnmatchcase : String → String → Bool
unfolding tokens matches
fnmatchcase name pattern = matches (tokens (length (codes pattern)) (codes pattern)) (codes name)
