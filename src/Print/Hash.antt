-- ===== src/Print/Hash.antt =====
-- The index of a command: hash of src/print_results/print_results.c. The texts hold bytes; a `char`
-- is signed, and a `long` has 64 bits.
pub mod Overflow
use command_stats.Common.{ℕ, ◌+◌, ◌-◌, ◌*◌, ◌%◌, List, [], ◌∷◌, ltb, if◌then◌else◌}
use command_stats.Common.Outcome.{Outcome, done, fault, ◌>>=◌}
use command_stats.Common.Text.{Text}

-- LONG_MAX + 1
abbrev pub long_limit : ℕ
long_limit = 9223372036854775808

-- A signed overflow is a fault. `hash` is never below its first value, so that it needs no sign.
abbrev pub in_long : ℕ → Outcome ℕ
in_long n = if ltb n long_limit then done n else fault

-- hash + c, where c is a `char`
abbrev pub add_char : ℕ → ℕ → ℕ
add_char hash c = if ltb c 128 then hash + c else hash + c - 256

unfoldable pub hash_loop : Text → ℕ → Outcome ℕ
hash_loop [] hash = done hash
hash_loop (c ∷ str) hash = in_long (hash * 32) >>= λ shifted.
    in_long (shifted + hash) >>= λ times_33.
    in_long (add_char times_33 c) >>= λ next. hash_loop str next

unfoldable pub hash : ℕ → Text → Outcome ℕ
unfolding hash_loop
hash pid str = hash_loop str 5381 >>= λ h. in_long (h + pid) >>= λ sum. done (sum % 100000)
