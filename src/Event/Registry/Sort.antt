-- ===== src/Event/Registry/Sort.antt =====
-- The descending sort of the priorities.
use apixis.Base.{
  true, false, ◌≡◌, refl, List, [], ◌∷◌, inl, inr, arith, if◌then◌else◌, contains, without, All,
  Bool-cases,
}
use apixis.Base.Int.{ℤ, ltb_ℤ, int_eq, eqb_ℤ}
use apixis.Event.Registry.{insert_desc, sort_desc}

abbrev pub AtMost : ℤ → List ℤ → Type 0
AtMost p = All (λ q. ltb_ℤ p q ≡ false)

abbrev pub IsDescending : List ℤ → Type 0
IsDescending [] = Unit
IsDescending (p ∷ ps) = AtMost p ps × IsDescending ps

ltb_ℤ-false_trans : (a b c : ℤ) → ltb_ℤ a b ≡ false → ltb_ℤ b c ≡ false → ltb_ℤ a c ≡ false
ltb_ℤ-false_trans a b c h k = ground arith

AtMost-trans : (a b : ℤ) (ps : List ℤ) → ltb_ℤ a b ≡ false → AtMost b ps → AtMost a ps
AtMost-trans a b [] h k = tt
AtMost-trans a b (p ∷ ps) h k = (ltb_ℤ-false_trans a b p h k.0, AtMost-trans a b ps h k.1)

pub AtMost-insert_desc :
    (a p : ℤ) (ps : List ℤ) → ltb_ℤ a p ≡ false → AtMost a ps → AtMost a (insert_desc p ps)
unfolding insert_desc
AtMost-insert_desc a p [] h k = (h, tt)
AtMost-insert_desc a p (q ∷ qs) h k = elim (Bool-cases (ltb_ℤ p q)) [
  | inl lt ↦ rw lt (k.0, AtMost-insert_desc a p qs h k.1)
  | inr ge ↦ rw ge (h, k)
]

insert_desc-IsDescending : (p : ℤ) (ps : List ℤ) → IsDescending ps → IsDescending (insert_desc p ps)
unfolding insert_desc
insert_desc-IsDescending p [] h = (tt, tt)
insert_desc-IsDescending p (q ∷ qs) h = elim (Bool-cases (ltb_ℤ p q)) [
  | inl lt ↦ rw lt (AtMost-insert_desc q p qs (ground arith) h.0, insert_desc-IsDescending p qs h.1)
  | inr ge ↦ rw ge ((ge, AtMost-trans p q qs ge h.0), h)
]

pub sort_desc-IsDescending : (ps : List ℤ) → IsDescending (sort_desc ps)
unfolding sort_desc
sort_desc-IsDescending [] = tt
sort_desc-IsDescending (p ∷ ps) =
    insert_desc-IsDescending p (sort_desc ps) (sort_desc-IsDescending ps)

pub insert_desc-front : (p : ℤ) (ps : List ℤ) → AtMost p ps → insert_desc p ps ≡ p ∷ ps
unfolding insert_desc
insert_desc-front p [] h = refl
insert_desc-front p (q ∷ qs) h = rw h.0

AtMost-without : (a p : ℤ) (ps : List ℤ) → AtMost a ps → AtMost a (without p ps)
AtMost-without a p [] h = tt
AtMost-without a p (q ∷ qs) h = elim (Bool-cases (eqb_ℤ q p)) [
  | inl e ↦ rw e (AtMost-without a p qs h.1)
  | inr n ↦ rw n (h.0, AtMost-without a p qs h.1)
]

without-insert_desc :
    (p q : ℤ) (ps : List ℤ)
    → IsDescending ps
    → without p (insert_desc q ps)
      ≡ (if eqb_ℤ q p then without p ps else insert_desc q (without p ps))
unfolding insert_desc
without-insert_desc p q [] h = ground arith
without-insert_desc p q (x ∷ xs) h = elim (Bool-cases (ltb_ℤ q x)) [
  | inl lt ↦ rw lt (ground (arith, without-insert_desc p q xs h.1))
  | inr ge ↦ rw ge (
      ground (
        arith,
        insert_desc-front q (without p xs) (AtMost-without q p xs (AtMost-trans q x xs ge h.0)),
      ))
]

pub without-sort_desc : (p : ℤ) (ps : List ℤ) → without p (sort_desc ps) ≡ sort_desc (without p ps)
unfolding sort_desc
without-sort_desc p [] = refl
without-sort_desc p (q ∷ qs) = ground (
  arith,
  without-insert_desc p q (sort_desc qs) (sort_desc-IsDescending qs),
  without-sort_desc p qs,
)

contains-insert_desc :
    (a p : ℤ) (ps : List ℤ)
    → contains a (insert_desc p ps) ≡ (if eqb_ℤ p a then true else contains a ps)
unfolding insert_desc
contains-insert_desc a p [] = ground arith
contains-insert_desc a p (q ∷ qs) = ground (arith, contains-insert_desc a p qs)

pub contains-sort_desc : (a : ℤ) (ps : List ℤ) → contains a (sort_desc ps) ≡ contains a ps
unfolding sort_desc
contains-sort_desc a [] = refl
contains-sort_desc a (p ∷ ps) =
    ground (arith, contains-insert_desc a p (sort_desc ps), contains-sort_desc a ps)
