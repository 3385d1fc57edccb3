-- ===== src/Event/Registry/Validate/Sound.antt =====
-- What a successful validation guarantees.
use apixis.Base.{
  ℕ, String, Bool, true, false, ◌||◌, ◌≡◌, refl, ap, ◌∙◌, sym, List, Option, none, some, inl, inr,
  arith, ok, ◌==◌, string_eq, contains, is_some-index_of, Option-cases, Bool-cases, >>=-eq-ok,
  ◌>>=◌, subst, IsUnique, IsUnique-dedup, dedup, map,
}
use apixis.Base.Int.{ℤ}
use apixis.Event.Registry.{
  Registry, Handler, Boundaries, bucket_of, find_handler_position, get_handler_priority,
}
use apixis.Event.Registry.Positions.{HasUniquePriorities, find_handler_position-at}
use apixis.Event.Registry.Validate.{
  Entry, BetweenArgument, not_pair, pair, validate, validate_between_handlers, boundary_position,
  target_priority, place, is_name, boundary_name, is_malformed, locate, placed_between, Placement,
  check_entry, assembled, normalise_patterns, normalise_filters, Patterns, supplied, text_of,
}

abbrev Holds : Registry → ℤ → String → String → Type 0
Holds r p name other =
    (contains other (bucket_of p r.priority_buckets) ≡ true) × ((name == other) ≡ false)

-- Every boundary is another name than the handler's, and the one that decides the place stands in
-- the bucket.
abbrev pub IsPlaceable : Registry → ℤ → String → Option Boundaries → Type 0
IsPlaceable r p name none = Unit
IsPlaceable r p name (some b) = elim b.right [
  | some t ↦ Holds r p name t
  | none ↦ elim b.left [ some l ↦ Holds r p name l | none ↦ ⊥ ]
]

boundary_position-at :
    (r : Registry) (t : String) (q : Option (ℤ × ℕ))
    → HasUniquePriorities r
    → boundary_position r (some t) ≡ ok q
    → (p : ℤ) × (i : ℕ) × (q ≡ some (p, i)) × (contains t (bucket_of p r.priority_buckets) ≡ true)
unfolding boundary_position
boundary_position-at r t q u h =
    elim (Option-cases (find_handler_position r.priority_buckets t (get_handler_priority r t))) [
      | inl e ↦ absurd (ground arith)
      | inr ((p, i), e) ↦ (
        p,
        i,
        ground arith,
        sym (is_some-index_of t (bucket_of p r.priority_buckets))
            ∙ rw (find_handler_position-at t r.priority_buckets (get_handler_priority r t) p i u e),
      )
    ]

boundary_position-none :
    (r : Registry) (q : Option (ℤ × ℕ)) → boundary_position r none ≡ ok q → q ≡ none
unfolding boundary_position
boundary_position-none r q h = cc

target_priority-IsPlaceable :
    (r : Registry) (l t : Option String) (lp tp : Option (ℤ × ℕ)) (p : ℤ) (name : String)
    → HasUniquePriorities r
    → boundary_position r l ≡ ok lp
    → boundary_position r t ≡ ok tp
    → (is_name name l || is_name name t) ≡ false
    → target_priority lp tp ≡ ok p
    → IsPlaceable r p name (some (record { left = l; right = t }))
unfolding target_priority
target_priority-IsPlaceable r none none lp tp p name u hl ht ne h = ground arith
target_priority-IsPlaceable r none (some t) lp tp p name u hl ht ne h =
    let (q, i, e, held) = boundary_position-at r t tp u ht in ground arith
target_priority-IsPlaceable r (some l) none lp tp p name u hl ht ne h =
    let (q, i, e, held) = boundary_position-at r l lp u hl in
    ground (arith, boundary_position-none r tp ht)
target_priority-IsPlaceable r (some l) (some t) lp tp p name u hl ht ne h =
    let (q, i, e, held) = boundary_position-at r l lp u hl in
    let (q', i', e', held') = boundary_position-at r t tp u ht in ground arith

locate-IsPlaceable :
    (r : Registry) (l t : Option String) (p : ℤ) (b : Boundaries) (name : String)
    → HasUniquePriorities r
    → (is_name name l || is_name name t) ≡ false
    → locate r l t ≡ ok (p, b)
    → IsPlaceable r p name (some b)
unfolding locate
locate-IsPlaceable r l t p b name u ne h =
    let (lp, hl, h') = >>=-eq-ok (boundary_position r l) _ h in
    let (tp, ht, h'') = >>=-eq-ok (boundary_position r t) _ h' in
    let (q, hq, e) = >>=-eq-ok (target_priority lp tp) _ h'' in
    let at_p : q ≡ p = cc in
    let same : record { left = l; right = t } ≡ b = cc in
    subst (λ x. IsPlaceable r p name (some x)) same
      (target_priority-IsPlaceable r l t lp tp p name u hl ht ne (hq ∙ ap ok at_p))

validate_between-IsPlaceable :
    (r : Registry) (a : BetweenArgument) (name : String) (p : ℤ) (b : Boundaries)
    → HasUniquePriorities r
    → validate_between_handlers r a name ≡ ok (p, b)
    → IsPlaceable r p name (some b)
unfolding validate_between_handlers
validate_between-IsPlaceable r not_pair name p b u h = cc
validate_between-IsPlaceable r (pair x y) name p b u h = elim (Bool-cases (is_malformed x y name)) [
  | inl bad ↦ absurd (ground arith)
  | inr good ↦
      locate-IsPlaceable r (boundary_name x) (boundary_name y) p b name u (ground arith)
        (ground arith)
]

between-IsPlaceable :
    (r : Registry) (a : BetweenArgument) (name : String) (p : ℤ) (q : Option ℤ)
    (b : Option Boundaries)
    → HasUniquePriorities r
    → (validate_between_handlers r a name >>= placed_between) ≡ ok (p, q, b)
    → IsPlaceable r p name b
between-IsPlaceable r a name p q b u h =
    let ((p', b'), hf, e) = >>=-eq-ok (validate_between_handlers r a name) placed_between h in
    let at_p : p' ≡ p = cc in
    let same : some b' ≡ b = cc in
    subst (λ x. IsPlaceable r p name x) same
      (subst (λ x. IsPlaceable r x name (some b')) at_p
        (validate_between-IsPlaceable r a name p' b' u hf))

pub place-IsPlaceable :
    (r : Registry) (e : Entry) (p : ℤ) (q : Option ℤ) (b : Option Boundaries)
    → HasUniquePriorities r
    → place r e ≡ ok (p, q, b)
    → IsPlaceable r p e.name b
unfolding place
place-IsPlaceable r e p q b u h = elim (Option-cases e.between_handlers) [
  | inl none_given ↦ let plain : b ≡ none = ground arith in rw plain tt
  | inr (a, given) ↦ between-IsPlaceable r a e.name p q b u (rw (given, place) at h)
]

-- The handler that a valid entry gives: its name, its patterns, and where it goes.
pub record IsReady (r : Registry) (e : Entry) (p : ℤ) (h : Handler) : Type 0 where
  pub named : h.name ≡ e.name
  pub named_something : (h.name == "") ≡ false
  pub placeable : IsPlaceable r p h.name h.between_handlers
  pub distinct : IsUnique h.subscribe

normalise_patterns-IsUnique :
    (ps : Patterns) (xs : List String) → normalise_patterns ps ≡ ok xs → IsUnique xs
unfolding normalise_patterns
normalise_patterns-IsUnique ps xs h =
    let same : dedup (map text_of (supplied ps)) ≡ xs = ground arith in
    subst (λ l. IsUnique l) same (IsUnique-dedup (map text_of (supplied ps)))

check_entry-named :
    (r : Registry) (e : Entry) (exist_ok : Bool)
    → check_entry r e exist_ok ≡ ok tt
    → (e.name == "") ≡ false
unfolding check_entry
check_entry-named r e exist_ok h = ground arith

module _ (r : Registry) (e : Entry) (p : ℤ) (h : Handler) (u : HasUniquePriorities r) where
  assembled-IsReady :
      (subscriptions filters : List String) (placed : Placement)
      → (e.name == "") ≡ false
      → normalise_patterns e.subscribe ≡ ok subscriptions
      → place r e ≡ ok placed
      → assembled e subscriptions filters placed ≡ (p, h)
      → IsReady r e p h
  assembled-IsReady subscriptions filters placed named hs hp same =
      subst (λ (x : ℤ × Handler). IsReady r e x.0 x.1) same
        (record {
          named = refl;
          named_something = named;
          placeable = place-IsPlaceable r e placed.0 placed.1 placed.2 u hp;
          distinct = normalise_patterns-IsUnique e.subscribe subscriptions hs;
        })

  pub validate-IsReady : (exist_ok : Bool) → validate r e exist_ok ≡ ok (p, h) → IsReady r e p h
  unfolding validate
  validate-IsReady exist_ok v =
      let (_, hc, v1) = >>=-eq-ok (check_entry r e exist_ok) _ v in
      let (subscriptions, hs, v2) = >>=-eq-ok (normalise_patterns e.subscribe) _ v1 in
      let (filters, hf, v3) = >>=-eq-ok (normalise_filters e.filter_event) _ v2 in
      let (placed, hp, v4) = >>=-eq-ok (place r e) _ v3 in
      assembled-IsReady subscriptions filters placed (check_entry-named r e exist_ok hc) hs hp (cc)
