-- ===== src/Print/Duration.antt =====
-- print_timespec and print_timeval of src/common/common.c: seconds as hours, minutes and seconds.
use command_stats.Common.{ℕ, zero, suc, ◌+◌, ◌-◌, ◌*◌, ◌/◌, ◌<◌, ◌≡◌, ◌++◌, arith}
use command_stats.Common.Int.{ℤ, pos, negsuc}
use command_stats.Common.Text.{Text, codes}
use command_stats.Structs.Node.{Timespec, Timeval, ExecutionResult}
use command_stats.Structs.Clock.{get_total_clock_time}
use command_stats.Print.Printer.{Library, shown}

pub record Clock : Type 0 where
  pub hours : ℕ
  pub minutes : ℕ
  pub seconds : ℕ

-- The ints h, m and s for a number of seconds that is not negative.
unfoldable pub clock : ℕ → Clock
clock tv_sec =
    let h = tv_sec / (60 * 60) in
    let m = (tv_sec - h * 60 * 60) / 60 in
    record { hours = h; minutes = m; seconds = tv_sec - h * 60 * 60 - m * 60 }

-- Division in C rounds towards zero, so the three have the sign of the whole.
abbrev negated : ℕ → ℤ
negated n = elim n [ zero ↦ pos 0 | suc k ↦ negsuc k ]

unfoldable pub print_clock : Library → ℤ → Text → Text
unfolding clock
print_clock lib (pos n) ms =
    let c = clock n in
    lib.decimal (pos c.hours)
    ++ (codes " h "
        ++ (lib.decimal (pos c.minutes)
            ++ (codes " m "
                ++ (lib.decimal (pos c.seconds) ++ (codes " s " ++ (ms ++ codes " ms"))))))
print_clock lib (negsuc k) ms =
    let c = clock (suc k) in
    lib.decimal (negated c.hours)
    ++ (codes " h "
        ++ (lib.decimal (negated c.minutes)
            ++ (codes " m "
                ++ (lib.decimal (negated c.seconds) ++ (codes " s " ++ (ms ++ codes " ms"))))))

abbrev pub print_timespec : Library → Timespec → Text
print_timespec lib time = print_clock lib time.tv_sec (lib.milliseconds_of_nsec time.tv_nsec)

abbrev pub print_timeval : Library → Timeval → Text
print_timeval lib time = print_clock lib (pos time.tv_sec) (lib.milliseconds_of_usec time.tv_usec)

-- print_timespec (get_total_clock_time (node)), where the end has been written
abbrev pub print_total_time : Library → ExecutionResult → Text
print_total_time lib r =
    shown lib (λ end. print_timespec lib (get_total_clock_time r.start_time end)) r.end_time

-- The hours, minutes and seconds that are printed make up the seconds, and are in their ranges.
clock_lem :
    (n : ℕ)
    → ((clock n).hours * 3600 + (clock n).minutes * 60 + (clock n).seconds ≡ n)
      × ((clock n).minutes < 60)
      × ((clock n).seconds < 60)
unfolding clock
clock_lem n = omega arith
