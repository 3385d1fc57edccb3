-- ===== src/Snow.antt =====
-- The Snowflake generator of source/apixis/core/utils/snow/snowflake_m1.py. The clock is a parameter:
-- a call reads `now`, and `later` is the first reading above the last tick, where it waits for one.
-- The clock is not before the base time. `turn_back_time_tick` stops at 0, where the code goes to -1:
-- it is only compared with 1 there.
pub mod Order
mod Examples
use apixis.Base.{ℕ, ◌+◌, ◌-◌, ◌*◌, ◌%◌, ◌^◌, Bool, true, false, if◌then◌else◌, ltb, leb}

pub record Options : Type 0 where
  pub worker_id : ℕ
  pub worker_id_bit_length : ℕ
  pub seq_bit_length : ℕ
  pub max_seq_number : ℕ
  pub min_seq_number : ℕ
  pub top_over_cost_count : ℕ

pub record SnowFlake : Type 0 where
  pub last_time_tick : ℕ
  pub current_seq_number : ℕ
  pub turn_back_time_tick : ℕ
  pub turn_back_index : ℕ
  pub is_over_cost : Bool
  pub over_cost_count_in_one_term : ℕ

-- `__init__`, with its defaults for the lengths and the last sequence number.
pub configure : Options → Options
configure o =
    let seq_bits = if leb o.seq_bit_length 0 then 6 else o.seq_bit_length in
    record {
      worker_id = o.worker_id;
      worker_id_bit_length = if leb o.worker_id_bit_length 0 then 6 else o.worker_id_bit_length;
      seq_bit_length = seq_bits;
      max_seq_number = if leb o.max_seq_number 0 then 2 ^ seq_bits - 1 else o.max_seq_number;
      min_seq_number = o.min_seq_number;
      top_over_cost_count = o.top_over_cost_count;
    }

abbrev pub start : Options → SnowFlake
start o = record {
  last_time_tick = 0;
  current_seq_number = o.min_seq_number;
  turn_back_time_tick = 0;
  turn_back_index = 0;
  is_over_cost = false;
  over_cost_count_in_one_term = 0;
}

-- The tick, the worker and the sequence number, side by side. The modulus is `int(1e64)`, the float
-- nearest to the power of ten.
pub compose : Options → ℕ → ℕ → ℕ
compose o tick seq =
    (tick * 2 ^ (o.worker_id_bit_length + o.seq_bit_length)
      + o.worker_id * 2 ^ o.seq_bit_length
      + seq)
    % 10000000000000000213204190094543968723012578712679649467743338496

abbrev pub calc_id : Options → SnowFlake → SnowFlake × ℕ
calc_id o s = (
  record s { current_seq_number = s.current_seq_number + 1 },
  compose o s.last_time_tick (s.current_seq_number + 1),
)

abbrev pub calc_turn_back_id : Options → SnowFlake → SnowFlake × ℕ
calc_turn_back_id o s = (
  record s { turn_back_time_tick = s.turn_back_time_tick - 1 },
  compose o s.turn_back_time_tick s.turn_back_index,
)

abbrev pub new_tick : Options → ℕ → SnowFlake → SnowFlake
new_tick o tick s = record s {
  last_time_tick = tick;
  current_seq_number = o.min_seq_number;
  is_over_cost = false;
  over_cost_count_in_one_term = 0;
}

-- The sequence is used up: the next tick is taken ahead of the clock.
abbrev pub over_cost : Options → ℕ → SnowFlake → SnowFlake
over_cost o count s = record s {
  last_time_tick = s.last_time_tick + 1;
  current_seq_number = o.min_seq_number;
  is_over_cost = true;
  over_cost_count_in_one_term = count;
}

pub next_over_cost_id : Options → ℕ → ℕ → SnowFlake → SnowFlake × ℕ
next_over_cost_id o now later s =
    if ltb s.last_time_tick now
    then calc_id o (new_tick o now s)
    else if leb o.top_over_cost_count s.over_cost_count_in_one_term
    then calc_id o (new_tick o later s)
    else if ltb o.max_seq_number s.current_seq_number
    then calc_id o (over_cost o (s.over_cost_count_in_one_term + 1) s)
    else calc_id o s

-- The clock has been set back: a run of reserved numbers on the ticks below the last one.
abbrev pub turned_back : SnowFlake → SnowFlake
turned_back s =
    if ltb s.turn_back_time_tick 1
    then record s {
      turn_back_time_tick = s.last_time_tick - 1;
      turn_back_index = if ltb 4 (s.turn_back_index + 1) then 1 else s.turn_back_index + 1;
    }
    else s

abbrev pub advance : Options → ℕ → SnowFlake → SnowFlake × ℕ
advance o now s =
    if ltb s.last_time_tick now
    then calc_id o (record s { last_time_tick = now; current_seq_number = o.min_seq_number })
    else if ltb o.max_seq_number s.current_seq_number
    then calc_id o (over_cost o 1 s)
    else calc_id o s

pub next_normal_id : Options → ℕ → SnowFlake → SnowFlake × ℕ
next_normal_id o now s =
    if ltb now s.last_time_tick
    then calc_turn_back_id o (turned_back s)
    else advance o now (record s { turn_back_time_tick = 0 })

pub next_id : Options → ℕ → ℕ → SnowFlake → SnowFlake × ℕ
unfolding next_over_cost_id next_normal_id compose
next_id o now later s =
    if s.is_over_cost then next_over_cost_id o now later s else next_normal_id o now s
