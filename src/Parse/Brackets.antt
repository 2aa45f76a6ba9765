-- ===== src/Parse/Brackets.antt =====
-- Brackets in a command: obfuscate_brackets_in_string and remove_brackets_if_alone of
-- src/parse/parse.c.
pub mod Masking
pub mod Closing
use command_stats.Common.{
  ℕ, zero, suc, ◌+◌, Bool, true, false, List, [], ◌∷◌, Option, none, some, ltb, ◌==◌, if◌then◌else◌,
  Option-cases,
}
use command_stats.Common.Int.{ℤ, pos, negsuc, ◌+ℤ◌, ◌-ℤ◌}
use command_stats.Common.Outcome.{Outcome, done, fault}
use command_stats.Common.Text.{Text, codes}
use command_stats.Regex.{Regexec, create_string_from_match}

-- parentesis > 0
abbrev pub is_positive : ℤ → Bool
is_positive (pos n) = ltb 0 n
is_positive (negsuc n) = false

-- The loop of obfuscate_brackets_in_string, from a value of the counter `parentesis`.
unfoldable pub obfuscate_from : ℤ → Text → Text
obfuscate_from parentesis [] = []
obfuscate_from parentesis (c ∷ cs) =
    let opened = if c == b'(' then parentesis +ℤ pos 1 else parentesis in
    (if is_positive opened then b'#' else c)
    ∷ obfuscate_from (if c == b')' then opened -ℤ pos 1 else opened) cs

abbrev pub obfuscate_brackets_in_string : Text → Text
obfuscate_brackets_in_string str = obfuscate_from (pos 0) str

-- The loop of remove_brackets_if_alone that finds `broken`; `skip` says that the byte stands behind
-- a backslash.
unfoldable pub is_broken : Bool → ℕ → ℕ → Text → Bool
is_broken skip opened closed [] = false
is_broken skip opened closed (c ∷ cs) = elim skip [
  | true ↦ is_broken false opened closed cs
  | false ↦ elim (c == b'\\') [
    | true ↦ is_broken true opened closed cs
    | false ↦ elim (c == b'(') [
      | true ↦ is_broken false (opened + 1) closed cs
      | false ↦ elim (c == b')') [
        | true ↦ elim (ltb opened (closed + 1)) [
          | true ↦ true
          | false ↦ is_broken false opened (closed + 1) cs
        ]
        | false ↦ is_broken false opened closed cs
      ]
    ]
  ]
]

abbrev pub match_string_inside_brackets_if_alone : Text
match_string_inside_brackets_if_alone = codes "^[ ]*\\((.*)\\)[ ]*$"

-- The path that keeps the brackets: regfree of the expression, which has been freed
-- behind regexec. Whether the C library bears that is `regfree_again`.
abbrev pub keep_brackets : Bool → Text → Outcome Text
keep_brackets regfree_again str = if regfree_again then done str else fault

-- A match in which the group takes no part is a fault.
unfoldable pub remove_brackets_if_alone : Regexec → Bool → Text → Outcome Text
unfolding is_broken create_string_from_match
remove_brackets_if_alone regexec regfree_again str =
    elim (regexec match_string_inside_brackets_if_alone str) [
      | none ↦ keep_brackets regfree_again str
      | some m ↦ elim (m.sub 1) [
        | none ↦ fault
        | some s ↦
            let without_brackets = create_string_from_match str s in
            if is_broken false 0 0 without_brackets
            then keep_brackets regfree_again str
            else done without_brackets
      ]
    ]
