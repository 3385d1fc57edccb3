-- ===== src/Event/Registry/Buckets.antt =====
-- How the filtered order of the names depends on one bucket.
use apixis.Base.{
  ℕ, zero, suc, String, Bool, false, ◌≡◌, refl, ap, ◌∙◌, sym, List, [], ◌∷◌, ◌++◌, Option, none,
  some, arith, string_eq, if◌then◌else◌, select, select-append, without, index_of, insert_at,
  remove_at, Bool-cases, Option-cases, append-nil, without-append, eq_self, inl, inr,
}
use apixis.Base.Int.{ℤ, int_eq, eqb_ℤ, eqb_ℤ_iff}
use apixis.Base.Dict.{Dict, keys, get, get-put, get-del, keys-del, keys-put}
use apixis.Event.Registry.Sort.{without-sort_desc}
use apixis.Event.Registry.{sort_desc, each_bucket, bucket_of, set_bucket, insert_name}

-- The names that pass a test, bucket by bucket.
abbrev pub passing : (String → Bool) → Dict ℤ (List String) → ℤ → List String
passing t b p = select t (bucket_of p b)

abbrev pub gather : (ℤ → List String) → List ℤ → List String
gather f [] = []
gather f (p ∷ ps) = f p ++ gather f ps

pub select-each_bucket :
    (t : String → Bool) (b : Dict ℤ (List String)) (ps : List ℤ)
    → select t (each_bucket b ps) ≡ gather (passing t b) ps
unfolding each_bucket
select-each_bucket t b [] = refl
select-each_bucket t b (p ∷ ps) =
    select-append t (bucket_of p b) (each_bucket b ps)
    ∙ ap (λ xs. passing t b p ++ xs) (select-each_bucket t b ps)

pub gather_congr :
    (f g : ℤ → List String) → ((p : ℤ) → f p ≡ g p) → (ps : List ℤ) → gather f ps ≡ gather g ps
gather_congr f g h [] = refl
gather_congr f g h (p ∷ ps) = cc (h p, gather_congr f g h ps)

pub gather-without :
    (f : ℤ → List String) (p : ℤ) (ps : List ℤ) → f p ≡ [] → gather f (without p ps) ≡ gather f ps
gather-without f p [] h = refl
gather-without f p (q ∷ qs) h = elim (Bool-cases (eqb_ℤ q p)) [
  | inl e ↦ rw e (gather-without f p qs h ∙ cc (h, ap f ((eqb_ℤ_iff q p).0 e)))
  | inr n ↦ rw n (ap (λ xs. f q ++ xs) (gather-without f p qs h))
]

pub bucket_of-set_bucket :
    (p q : ℤ) (new : List String) (b : Dict ℤ (List String))
    → bucket_of q (set_bucket p new b) ≡ (if eqb_ℤ p q then new else bucket_of q b)
bucket_of-set_bucket p q [] b = ground (arith, get-del p q b)
bucket_of-set_bucket p q (n ∷ ns) b = ground (arith, get-put p q (n ∷ ns) b)

-- All names that pass a test, in dispatch order.
abbrev pub chain_of : (String → Bool) → Dict ℤ (List String) → List String
chain_of t b = gather (passing t b) (sort_desc (keys b))

gather_more_keys :
    (f : ℤ → List String) (p : ℤ) (ps : List ℤ)
    → f p ≡ []
    → gather f (sort_desc (ps ++ p ∷ [])) ≡ gather f (sort_desc ps)
gather_more_keys f p ps h =
    sym (gather-without f p (sort_desc (ps ++ p ∷ [])) h)
    ∙ ap (gather f)
        (without-sort_desc p (ps ++ p ∷ []) ∙ ap sort_desc same ∙ sym (without-sort_desc p ps))
    ∙ gather-without f p (sort_desc ps) h
  where
    same : without p (ps ++ p ∷ []) ≡ without p ps
    same = without-append p ps (p ∷ []) ∙ simp (eq_self p, append-nil)

same_keys :
    (t : String → Bool) (p : ℤ) (new : List String) (b : Dict ℤ (List String))
    → select t new ≡ passing t b p
    → gather (passing t b) (sort_desc (keys (set_bucket p new b))) ≡ chain_of t b
same_keys t p [] b h =
    ap (λ ps. gather (passing t b) (sort_desc ps)) (keys-del p b)
    ∙ ap (gather (passing t b)) (sym (without-sort_desc p (keys b)))
    ∙ gather-without (passing t b) p (sort_desc (keys b)) (sym h)
same_keys t p (n ∷ ns) b h = elim (Option-cases (get p b)) [
  | inl new ↦
      ap (λ ps. gather (passing t b) (sort_desc ps)) (keys-put p (n ∷ ns) b ∙ rw new)
      ∙ gather_more_keys (passing t b) p (keys b) (rw new)
  | inr (old, found) ↦
      ap (λ ps. gather (passing t b) (sort_desc ps)) (keys-put p (n ∷ ns) b ∙ rw found)
]

-- A bucket that gains or loses only names that fail the test leaves the order of the others.
pub chain_of-set_bucket :
    (t : String → Bool) (p : ℤ) (new : List String) (b : Dict ℤ (List String))
    → select t new ≡ passing t b p
    → chain_of t (set_bucket p new b) ≡ chain_of t b
chain_of-set_bucket t p new b h =
    gather_congr (passing t (set_bucket p new b)) (passing t b) pointwise
      (sort_desc (keys (set_bucket p new b)))
    ∙ same_keys t p new b h
  where
    pointwise : (q : ℤ) → passing t (set_bucket p new b) q ≡ passing t b q
    pointwise q = ground (arith, ap (select t) (bucket_of-set_bucket p q new b), eqb_ℤ_iff p q, h)

pub select-remove_at :
    (t : String → Bool) (a : String) (i : ℕ) (xs : List String)
    → index_of a xs ≡ some i
    → t a ≡ false
    → select t (remove_at i xs) ≡ select t xs
select-remove_at t a i [] h k = cc
select-remove_at t a zero (x ∷ xs) h k =
    ground (arith, string_eq.beq_iff x a, Option-cases (index_of a xs))
select-remove_at t a (suc i) (x ∷ xs) h k =
    ground (arith, select-remove_at t a i xs, Option-cases (index_of a xs))

pub select-insert_at :
    (t : String → Bool) (a : String) (i : ℕ) (xs : List String)
    → t a ≡ false
    → select t (insert_at i a xs) ≡ select t xs
select-insert_at t a zero xs k = ground arith
select-insert_at t a (suc i) [] k = ground arith
select-insert_at t a (suc i) (x ∷ xs) k = ground (arith, select-insert_at t a i xs)

pub select-insert_name :
    (t : String → Bool) (a : String) (i : Option ℕ) (xs : List String)
    → t a ≡ false
    → select t (insert_name i a xs) ≡ select t xs
select-insert_name t a none xs k = select-append t xs (a ∷ []) ∙ rw k (append-nil (select t xs))
select-insert_name t a (some i) xs k = select-insert_at t a i xs k
