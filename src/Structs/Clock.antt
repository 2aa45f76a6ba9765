-- ===== src/Structs/Clock.antt =====
-- get_total_clock_time of src/structs/node.c.
use command_stats.Common.{ℕ, ◌+◌, ◌*◌, ◌≡◌, arith}
use command_stats.Common.Int.{◌-ℤ◌, pos_part, neg_part, -ℤ_parts}
use command_stats.Structs.Node.{Timespec}

-- get_total_clock_time, of the two times of a node's result
unfoldable pub get_total_clock_time : Timespec → Timespec → Timespec
get_total_clock_time start end = record {
  tv_sec = end.tv_sec -ℤ start.tv_sec;
  tv_nsec = end.tv_nsec -ℤ start.tv_nsec;
}

-- The nanoseconds of a time, less what of it is negative: credit and debit.
unfoldable credit : Timespec → ℕ
credit t = pos_part t.tv_sec * 1000000000 + pos_part t.tv_nsec

unfoldable debit : Timespec → ℕ
debit t = neg_part t.tv_sec * 1000000000 + neg_part t.tv_nsec

-- The total time is the end less the start, in nanoseconds over both fields: total + start = end.
total_clock_time_balance :
    (s e : Timespec)
    → credit (get_total_clock_time s e) + credit s + debit e
      ≡ debit (get_total_clock_time s e) + debit s + credit e
unfolding get_total_clock_time credit debit
total_clock_time_balance s e =
    omega (arith, -ℤ_parts e.tv_sec s.tv_sec, -ℤ_parts e.tv_nsec s.tv_nsec)
