-- ===== src/Event/Registry/Positions.antt =====
-- What a position found by `_find_handler_position` says.
use apixis.Base.{
  ℕ, String, true, false, ◌≡◌, List, [], ◌∷◌, Option, none, some, inl, inr, arith, ◌==◌, string_eq,
  contains, index_of, remove_at, contains-remove_at, IsUnique, Option-cases,
}
use apixis.Base.Int.{ℤ, int_eq, eqb_ℤ_iff}
use apixis.Base.Dict.{Dict, keys, get}
use apixis.Event.Registry.{
  Registry, bucket_of, scan_buckets, find_handler_position, remove_from_bucket, position,
  get_handler_priority,
}
use apixis.Event.Registry.Buckets.{bucket_of-set_bucket}

abbrev pub HasUniquePriorities : Registry → Type 0
HasUniquePriorities r = IsUnique (keys r.priority_buckets)

scan_buckets-at :
    (name : String) (b : Dict ℤ (List String)) (p : ℤ) (i : ℕ)
    → IsUnique (keys b)
    → scan_buckets name b ≡ some (p, i)
    → (contains p (keys b) ≡ true) × (index_of name (bucket_of p b) ≡ some i)
unfolding scan_buckets get
scan_buckets-at name [] p i u h = cc
scan_buckets-at name ((q, bucket) ∷ rest) p i u h = elim (Option-cases (index_of name bucket)) [
  | inl miss ↦
      let (known, at) = scan_buckets-at name rest p i u.1 (ground arith) in
      ground (arith, eqb_ℤ_iff q p)
  | inr (j, hit) ↦ ground (arith, eqb_ℤ_iff q p)
]

pub find_handler_position-at :
    (name : String) (b : Dict ℤ (List String)) (o : Option ℤ) (p : ℤ) (i : ℕ)
    → IsUnique (keys b)
    → find_handler_position b name o ≡ some (p, i)
    → index_of name (bucket_of p b) ≡ some i
unfolding find_handler_position
find_handler_position-at name b none p i u h = (scan_buckets-at name b p i u h).1
find_handler_position-at name b (some q) p i u h =
    ground (arith, Option-cases (get q b), Option-cases (index_of name (bucket_of q b)))

-- Where a name stands, the bucket holds it at that index.
pub position-at :
    (r : Registry) (name : String) (p : ℤ) (i : ℕ)
    → HasUniquePriorities r
    → position r name ≡ some (p, i)
    → index_of name (bucket_of p r.priority_buckets) ≡ some i
unfolding position
position-at r name p i u h =
    find_handler_position-at name r.priority_buckets (get_handler_priority r name) p i u h

-- Removing one name keeps every other name in its bucket.
pub contains-remove_from_bucket :
    (r : Registry) (name other : String) (q : ℤ)
    → HasUniquePriorities r
    → (name == other) ≡ false
    → contains other (bucket_of q (remove_from_bucket name r).priority_buckets)
      ≡ contains other (bucket_of q r.priority_buckets)
unfolding remove_from_bucket
contains-remove_from_bucket r name other q u ne = elim (Option-cases (position r name)) [
  | inl e ↦ rw (e, remove_from_bucket)
  | inr ((p, i), e) ↦
      rw
        (
          e,
          remove_from_bucket,
          bucket_of-set_bucket p q (remove_at i (bucket_of p r.priority_buckets))
              r.priority_buckets,
        )
        (ground (
          arith,
          eqb_ℤ_iff p q,
          contains-remove_at other name i (bucket_of p r.priority_buckets)
              (position-at r name p i u e) ne,
        ))
]
