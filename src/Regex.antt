-- ===== src/Regex.antt =====
-- src/common/my_regex.c: counting the matches of a regular expression, and splitting a text at them.
-- `regexec` is the C library's: an argument. A compiled expression stands for its pattern.
pub mod Literal
pub mod Split
pub mod PastTheEnd
pub mod Ends
use command_stats.Common.{
  ℕ, zero, suc, ◌+◌, ◌-◌, Bool, true, false, List, [], ◌∷◌, Option, none, some, leb, if◌then◌else◌,
  length, take, drop,
}
use command_stats.Common.Outcome.{Outcome, done, fault, out_of_fuel, ◌>>=◌}
use command_stats.Common.Text.{Text}

-- regmatch_t
pub record Span : Type 0 where
  pub rm_so : ℕ
  pub rm_eo : ℕ

abbrev pub span : ℕ → ℕ → Span
span so eo = record { rm_so = so; rm_eo = eo }

-- What a successful regexec writes to `matches`: entry 0, and the entries from 1 on, `none` for a
-- group that takes no part (both its offsets are -1).
pub record Match : Type 0 where
  pub whole : Span
  pub sub : ℕ → Option Span

abbrev pub group : Match → ℕ → Option Span
group m zero = some m.whole
group m (suc n) = m.sub (suc n)

-- regexec (pattern, text): `none` is REG_NOMATCH
abbrev pub Regexec : Type 0
Regexec = Text → Text → Option Match

-- strndup (str + rm_so, rm_eo - rm_so)
unfoldable pub create_string_from_match : Text → Span → Text
create_string_from_match str m = take (m.rm_eo - m.rm_so) (drop m.rm_so str)

-- `string++`: behind the terminator of `string` stand the texts `beyond`, and then a zero byte.
abbrev pub step_over : Text → List Text → Text × List Text
step_over (c ∷ cs) beyond = (cs, beyond)
step_over [] (t ∷ ts) = (t, ts)
step_over [] [] = ([], [])

unfoldable pub count_occurrences_of_regex : ℕ → Regexec → Text → Text → List Text → Outcome ℕ
count_occurrences_of_regex zero regexec delimiter string beyond = out_of_fuel
count_occurrences_of_regex (suc k) regexec delimiter [] beyond = done 0
count_occurrences_of_regex (suc k) regexec delimiter (c ∷ cs) beyond =
    elim (regexec delimiter (c ∷ cs)) [
      | none ↦ done 0
      | some m ↦
          let rest = drop m.whole.rm_eo (c ∷ cs) in
          let (next, beyond') =
            if leb m.whole.rm_eo m.whole.rm_so then step_over rest beyond else (rest, beyond) in
          count_occurrences_of_regex k regexec delimiter next beyond' >>= λ count. done (count + 1)
    ]

-- The loop of split_obfuscated_string, by the pieces left. A failed regexec leaves `matches`
-- unspecified, so a further round, which would step by it, is a fault.
unfoldable pub split_loop : ℕ → Regexec → Text → ℕ → Text → Text → Outcome (List Text)
split_loop zero regexec delimiter g obs_str str = done []
split_loop (suc n) regexec delimiter g obs_str str = elim (regexec delimiter obs_str) [
  | none ↦ elim n [ zero ↦ done (take (length obs_str) str ∷ []) | suc _ ↦ fault ]
  | some m ↦ elim (group m g) [
    | none ↦ fault
    | some s ↦
        split_loop n regexec delimiter g (drop s.rm_eo obs_str) (drop s.rm_eo str) >>= λ pieces.
        done (take s.rm_so str ∷ pieces)
  ]
]

-- The list has `count` pieces.
unfoldable pub split_obfuscated_string :
    ℕ → Regexec → Text → Text → ℕ → Text → List Text → Outcome (List Text)
unfolding count_occurrences_of_regex split_loop
split_obfuscated_string k regexec obfuscated_string delimiter g string beyond =
    count_occurrences_of_regex k regexec delimiter obfuscated_string beyond >>= λ operators_count.
    split_loop (operators_count + 1) regexec delimiter g obfuscated_string string

abbrev pub split_string : ℕ → Regexec → Text → Text → List Text → Outcome (List Text)
split_string k regexec string delimiter beyond =
    split_obfuscated_string k regexec string delimiter 0 string beyond
