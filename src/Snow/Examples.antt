-- ===== src/Snow/Examples.antt =====
-- Examples of the generator with the default options.
use apixis.Base.{refl, arith, ◌≡◌, ◌*◌, ◌^◌, ◌+◌}
use apixis.Snow.{Options, SnowFlake, next_id, start, configure}
use apixis.Snow.Order.{Advances, next_id-Advances}

abbrev options : Options
options = record {
  worker_id = 1;
  worker_id_bit_length = 6;
  seq_bit_length = 6;
  max_seq_number = 63;
  min_seq_number = 5;
  top_over_cost_count = 2000;
}

abbrev bare_options : Options
bare_options = record options { worker_id_bit_length = 0; seq_bit_length = 0; max_seq_number = 0 }

defaults : configure bare_options ≡ options
unfolding configure
defaults = refl

-- The last sequence number of a tick has been given, and one is left.
abbrev last_one : SnowFlake
last_one = record (start options) { last_time_tick = 7; current_seq_number = 63 }

next_id_example : Advances options last_one (next_id options 7 8 last_one)
next_id_example =
    next_id-Advances options (omega arith) last_one
      (record { least = omega arith; most = omega arith }) 7 8 refl (omega arith)

-- The sequence number 64 does not fit in 6 bits: the identifier is that of worker 2 and number 0.
spills : (next_id options 7 8 last_one).1 ≡ 7 * 2 ^ 12 + 2 * 2 ^ 6
unfolding next_id
spills = refl
