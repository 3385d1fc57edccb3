-- ===== src/Snow/Order.antt =====
-- The order of the identifiers that the generator gives while the clock is not set back.
use apixis.Base.{
  ℕ, ◌+◌, ◌≤◌, ◌<◌, ◌≡◌, refl, arith, true, false, not, ◌&&◌, ◌⊎◌, inl, inr, ltb, leb, if_cases,
}
use apixis.Snow.{
  Options, SnowFlake, next_id, next_over_cost_id, next_normal_id, compose, calc_id, new_tick,
  over_cost,
}

-- The sequence number is between the first that is stored and one above the last.
pub record IsReady (o : Options) (s : SnowFlake) : Type 0 where
  pub least : o.min_seq_number ≤ s.current_seq_number
  pub most : s.current_seq_number ≤ o.max_seq_number + 1

-- The identifier is composed of the tick and the sequence number that the generator is left with. They
-- are above those of before: a higher tick, or the same tick and the next sequence number. The
-- sequence number is above the smallest one and at most one above the greatest one.
pub record Advances (o : Options) (s : SnowFlake) (r : SnowFlake × ℕ) : Type 0 where
  pub id : r.1 ≡ compose o r.0.last_time_tick r.0.current_seq_number
  pub above :
      (s.last_time_tick < r.0.last_time_tick)
      ⊎ ((r.0.last_time_tick ≡ s.last_time_tick)
          × (r.0.current_seq_number ≡ s.current_seq_number + 1))
  pub least : o.min_seq_number < r.0.current_seq_number
  pub most : r.0.current_seq_number ≤ o.max_seq_number + 1

module _ (o : Options) (range : o.min_seq_number ≤ o.max_seq_number) (s : SnowFlake)
    (ready : IsReady o s) where
  -- A call that starts a higher tick.
  restarts :
      (s' : SnowFlake)
      → s.last_time_tick < s'.last_time_tick
      → s'.current_seq_number ≡ o.min_seq_number
      → Advances o s (calc_id o s')
  restarts s' higher first = record {
    id = refl;
    above = inl higher;
    least = omega (arith, first);
    most = omega (arith, first, range);
  }

  continues :
      (s' : SnowFlake)
      → s'.last_time_tick ≡ s.last_time_tick
      → s'.current_seq_number ≡ s.current_seq_number
      → ltb o.max_seq_number s.current_seq_number ≡ false
      → Advances o s (calc_id o s')
  continues s' same number room = record {
    id = refl;
    above = inr (same, omega (arith, number));
    least = omega (arith, number, ready.least);
    most = ground (arith, number, room);
  }

  -- Where the first sequence number is not above the last, the stored one is between the first and one
  -- above the last, and a wait for the clock gives a reading above the last tick: unless the clock is
  -- behind the last tick outside an over-cost term, a call gives the identifier of a higher tick, or of
  -- the next sequence number on the same tick; the sequence numbers given are those above the smallest
  -- one, up to one above the greatest one.
  pub next_id-Advances :
      (now later : ℕ)
      → (not s.is_over_cost && ltb now s.last_time_tick) ≡ false
      → s.last_time_tick < later
      → Advances o s (next_id o now later s)
  unfolding next_id next_over_cost_id next_normal_id
  next_id-Advances now later forward ahead =
      if_cases (Advances o s) s.is_over_cost _ _
        (λ over.
          if_cases (Advances o s) (ltb s.last_time_tick now) _ _
            (λ h. restarts (new_tick o now s) (ground (arith, h)) refl)
            (λ _.
              if_cases (Advances o s) (leb o.top_over_cost_count s.over_cost_count_in_one_term) _ _
                (λ _. restarts (new_tick o later s) ahead refl)
                (λ _.
                  if_cases (Advances o s) (ltb o.max_seq_number s.current_seq_number) _ _
                    (λ _.
                      restarts (over_cost o (s.over_cost_count_in_one_term + 1) s) (omega arith)
                        refl)
                    (λ room. continues s refl refl room))))
        (λ normal.
          if_cases (Advances o s) (ltb now s.last_time_tick) _ _
            (λ back. absurd (behind normal back))
            (λ _.
              if_cases (Advances o s) (ltb s.last_time_tick now) _ _
                (λ h. restarts _ (ground (arith, h)) refl)
                (λ _.
                  if_cases (Advances o s) (ltb o.max_seq_number s.current_seq_number) _ _
                    (λ _.
                      restarts (over_cost o 1 (record s { turn_back_time_tick = 0 })) (omega arith)
                        refl)
                    (λ room. continues (record s { turn_back_time_tick = 0 }) refl refl room))))
    where
      behind : s.is_over_cost ≡ false → ltb now s.last_time_tick ≡ true → ⊥
      behind normal back = ground (arith, forward, normal, back)
