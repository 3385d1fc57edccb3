-- ===== src/Event/Registry/Extremes.antt =====
-- The greatest and the smallest priority in the descending order of the buckets
-- (source/apixis/core/event/handler_registry.py).
use apixis.Base.{
  String, true, false, ◌≡◌, refl, ap, ◌∙◌, sym, subst, List, [], ◌∷◌, ◌++◌, append_assoc, inl, inr,
  arith, contains, without, without_absent, All, IsUnique, Bool-cases,
}
use apixis.Base.Int.{ℤ, pos, negsuc, ltb_ℤ, int_eq, eqb_ℤ, eqb_ℤ_iff}
use apixis.Base.Dict.{Dict, put, get-put}
use apixis.Event.Registry.{insert_desc, sort_desc, each_bucket, bucket_of}
use apixis.Event.Registry.Sort.{AtMost, AtMost-insert_desc, insert_desc-front}

abbrev pub AtLeast : ℤ → List ℤ → Type 0
AtLeast p = All (λ q. ltb_ℤ q p ≡ false)

AtMost-sort_desc : (a : ℤ) (ps : List ℤ) → AtMost a ps → AtMost a (sort_desc ps)
unfolding sort_desc
AtMost-sort_desc a [] h = tt
AtMost-sort_desc a (p ∷ ps) h =
    AtMost-insert_desc a p (sort_desc ps) h.0 (AtMost-sort_desc a ps h.1)

below : (p a : ℤ) → ltb_ℤ a p ≡ false → eqb_ℤ p a ≡ false → ltb_ℤ p a ≡ true
below (pos m) (pos n) h k = ground (arith, h, k)
below (pos m) (negsuc n) h k = ground (arith, h, k)
below (negsuc m) (pos n) h k = ground (arith, h, k)
below (negsuc m) (negsuc n) h k = ground (arith, h, k)

insert_desc-behind :
    (p a : ℤ) (ps : List ℤ) → ltb_ℤ p a ≡ true → insert_desc p (a ∷ ps) ≡ a ∷ insert_desc p ps
unfolding insert_desc
insert_desc-behind p a ps h = rw (h)

absent : (p a : ℤ) (ps : List ℤ) → eqb_ℤ p a ≡ true → contains p ps ≡ false → contains a ps ≡ false
absent p a ps e h = subst (λ q. contains q ps ≡ false) ((eqb_ℤ_iff p a).0 e) h

front :
    (a : ℤ) (ps : List ℤ)
    → contains a ps ≡ false
    → AtMost a ps
    → insert_desc a (sort_desc ps) ≡ a ∷ sort_desc (without a ps)
front a ps h most =
    insert_desc-front a (sort_desc ps) (AtMost-sort_desc a ps most)
    ∙ ap (λ qs. a ∷ sort_desc qs) (sym (without_absent a ps h))

-- The greatest priority is the first.
pub sort_desc-greatest :
    (a : ℤ) (ps : List ℤ)
    → contains a ps ≡ true
    → IsUnique ps
    → AtMost a ps
    → sort_desc ps ≡ a ∷ sort_desc (without a ps)
unfolding sort_desc
sort_desc-greatest a [] h u most = cc h
sort_desc-greatest a (p ∷ ps) h u most = elim (Bool-cases (eqb_ℤ p a)) [
  | inl e ↦ rw (e) (
      subst (λ q. insert_desc q (sort_desc ps) ≡ a ∷ sort_desc (without a ps))
        (sym ((eqb_ℤ_iff p a).0 e)) (front a ps (absent p a ps e u.0) most.1))
  | inr n ↦ rw (n) (
      ap (insert_desc p) (sort_desc-greatest a ps (ground (arith, h, n)) u.1 most.1)
      ∙ insert_desc-behind p a (sort_desc (without a ps)) (below p a most.0 n))
]

insert_desc-before :
    (p a : ℤ) (ps : List ℤ)
    → ltb_ℤ a p ≡ true
    → insert_desc p (ps ++ a ∷ []) ≡ insert_desc p ps ++ a ∷ []
unfolding insert_desc
insert_desc-before p a [] h = ground (arith, h)
insert_desc-before p a (q ∷ qs) h = elim (Bool-cases (ltb_ℤ p q)) [
  | inl lt ↦ rw (lt) (ap (λ xs. q ∷ xs) (insert_desc-before p a qs h))
  | inr ge ↦ rw (ge)
]

abbrev Above : ℤ → List ℤ → Type 0
Above p = All (λ q. ltb_ℤ p q ≡ true)

Above-insert_desc :
    (a p : ℤ) (ps : List ℤ) → ltb_ℤ a p ≡ true → Above a ps → Above a (insert_desc p ps)
unfolding insert_desc
Above-insert_desc a p [] h k = (h, tt)
Above-insert_desc a p (q ∷ qs) h k = elim (Bool-cases (ltb_ℤ p q)) [
  | inl lt ↦ rw lt (k.0, Above-insert_desc a p qs h k.1)
  | inr ge ↦ rw ge (h, k)
]

Above-sort_desc :
    (a : ℤ) (ps : List ℤ) → contains a ps ≡ false → AtLeast a ps → Above a (sort_desc ps)
unfolding sort_desc
Above-sort_desc a [] h k = tt
Above-sort_desc a (p ∷ ps) h k =
    Above-insert_desc a p (sort_desc ps)
      (below a p k.0 (ground (arith, h, eqb_ℤ_iff a p, eqb_ℤ_iff p a)))
      (Above-sort_desc a ps (ground (arith, h)) k.1)

insert_desc-last : (a : ℤ) (ps : List ℤ) → Above a ps → insert_desc a ps ≡ ps ++ a ∷ []
unfolding insert_desc
insert_desc-last a [] h = refl
insert_desc-last a (p ∷ ps) h = rw (h.0) (ap (λ xs. p ∷ xs) (insert_desc-last a ps h.1))

last :
    (a : ℤ) (ps : List ℤ)
    → contains a ps ≡ false
    → AtLeast a ps
    → insert_desc a (sort_desc ps) ≡ sort_desc (without a ps) ++ a ∷ []
last a ps h least =
    insert_desc-last a (sort_desc ps) (Above-sort_desc a ps h least)
    ∙ ap (λ qs. sort_desc qs ++ a ∷ []) (sym (without_absent a ps h))

-- The smallest priority is the last.
pub sort_desc-smallest :
    (a : ℤ) (ps : List ℤ)
    → contains a ps ≡ true
    → IsUnique ps
    → AtLeast a ps
    → sort_desc ps ≡ sort_desc (without a ps) ++ a ∷ []
unfolding sort_desc
sort_desc-smallest a [] h u least = cc h
sort_desc-smallest a (p ∷ ps) h u least = elim (Bool-cases (eqb_ℤ p a)) [
  | inl e ↦ rw (e) (
      subst (λ q. insert_desc q (sort_desc ps) ≡ sort_desc (without a ps) ++ a ∷ [])
        (sym ((eqb_ℤ_iff p a).0 e)) (last a ps (absent p a ps e u.0) least.1))
  | inr n ↦ rw (n) (
      ap (insert_desc p) (sort_desc-smallest a ps (ground (arith, h, n)) u.1 least.1)
      ∙ insert_desc-before p a (sort_desc (without a ps))
          (below a p least.0 (ground (arith, n, eqb_ℤ_iff a p, eqb_ℤ_iff p a))))
]

-- A write to one bucket leaves the names of the others.
pub each_bucket-put :
    (p : ℤ) (names : List String) (b : Dict ℤ (List String)) (ps : List ℤ)
    → contains p ps ≡ false
    → each_bucket (put p names b) ps ≡ each_bucket b ps
unfolding each_bucket
each_bucket-put p names b [] h = refl
each_bucket-put p names b (q ∷ qs) h = cc (other, each_bucket-put p names b qs (ground (arith, h)))
  where
    other : bucket_of q (put p names b) ≡ bucket_of q b
    other = ground (arith, get-put p q names b, h, eqb_ℤ_iff p q, eqb_ℤ_iff q p)

pub each_bucket-append :
    (b : Dict ℤ (List String)) (ps qs : List ℤ)
    → each_bucket b (ps ++ qs) ≡ each_bucket b ps ++ each_bucket b qs
unfolding each_bucket
each_bucket-append b [] qs = refl
each_bucket-append b (p ∷ ps) qs =
    ap (λ xs. bucket_of p b ++ xs) (each_bucket-append b ps qs)
    ∙ sym (append_assoc (bucket_of p b) (each_bucket b ps) (each_bucket b qs))
