-- ===== src/Parse/Operators.antt =====
-- Splitting a command at an operator: priority_map and create_split_for_operator of
-- src/parse/parse.c.
use command_stats.Common.{
  ℕ, suc, ◌+◌, ◌≡◌, ◌≢◌, refl, ap, ◌∙◌, false, List, [], ◌∷◌, ◌++◌, none, arith, length, append-nil,
}
use command_stats.Common.Outcome.{Outcome, done}
use command_stats.Common.Text.{Text, codes}
use command_stats.Common.Int.{pos}
use command_stats.Regex.{Regexec, split_obfuscated_string}
use command_stats.Regex.Literal.{IsLiteral, starts_with, find_first, match_at}
use command_stats.Regex.Split.{
  NoMask, join, split_obfuscated_string-join, split_obfuscated_string-whole,
}
use command_stats.Regex.PastTheEnd.{MatchesEnd, split_obfuscated_string-first}
use command_stats.Parse.Brackets.{obfuscate_from, obfuscate_brackets_in_string}
use command_stats.Parse.Brackets.Masking.{
  IsBalanced, obfuscate-Masks, length-obfuscate, hidden, obfuscate-group,
}

-- the separators of priority_map, in its order
abbrev pub and_separator : Text
and_separator = codes "(&&)"

abbrev pub or_separator : Text
or_separator = codes "(\\|\\|)"

abbrev pub pipe_separator : Text
pipe_separator = codes "[^|](\\|)[^|]"

abbrev pub semicolon_separator : Text
semicolon_separator = codes "(;)"

abbrev pub executable_separator : Text
executable_separator = codes "($)"

-- The fuel covers the text and what stands behind its copy in memory.
abbrev split_fuel : Text → List Text → ℕ
split_fuel string beyond = suc (length string + length beyond + 1)

-- `beyond` is what stands in memory behind the obfuscated copy.
unfoldable pub create_split_for_operator : Regexec → Text → Text → List Text → Outcome (List Text)
create_split_for_operator regexec string separator beyond =
    split_obfuscated_string (split_fuel string beyond) regexec (obfuscate_brackets_in_string string)
      separator 1 string beyond

-- For a separator that is a literal text without '#', the pieces of a command with the separator
-- between each two are the command, whatever brackets it has and whatever stands behind it in memory.
pub create_split-join :
    (regexec : Regexec) (separator sep : Text) (string : Text) (beyond : List Text)
    → IsLiteral regexec separator sep
    → NoMask sep
    → (pieces : List Text) × (create_split_for_operator regexec string separator beyond
        ≡ done pieces)
      × (join sep pieces ≡ string)
unfolding create_split_for_operator
create_split-join regexec separator sep string beyond literal plain =
    split_obfuscated_string-join regexec separator sep 1 literal plain beyond
      (split_fuel string beyond) (obfuscate_brackets_in_string string) string
      (omega (arith, length-obfuscate (pos 0) string)) (obfuscate-Masks (pos 0) string)

-- The split at "($)", which counts past the end of its text, has the whole command for its first
-- piece, whatever stands behind it in memory.
pub create_split-executable :
    (regexec : Regexec) (string : Text) (beyond : List Text)
    → MatchesEnd regexec executable_separator
    → (rest : List Text) × (create_split_for_operator regexec string executable_separator beyond
        ≡ done (string ∷ rest))
unfolding create_split_for_operator
create_split-executable regexec string beyond ends =
    split_obfuscated_string-first regexec executable_separator ends (split_fuel string beyond)
      (obfuscate_brackets_in_string string) string beyond (omega arith)
      (length-obfuscate (pos 0) string)

starts_with-hidden :
    (c : ℕ) (sep s : Text) → NoMask (c ∷ sep) → starts_with (c ∷ sep) (hidden s) ≡ false
unfolding starts_with
starts_with-hidden c sep [] n = refl
starts_with-hidden c sep (d ∷ ds) n = ground (arith, n.0)

find_first-hidden : (sep s : Text) → sep ≢ [] → NoMask sep → find_first sep (hidden s) ≡ none
unfolding find_first
find_first-hidden [] s h n = absurd (h refl)
find_first-hidden (c ∷ sep) [] h n = unfold starts_with in refl
find_first-hidden (c ∷ sep) (d ∷ ds) h n =
    ground (arith, starts_with-hidden c sep (d ∷ ds) n, find_first-hidden (c ∷ sep) ds h n)

-- A command that stands in brackets, balanced inside, is not split at a literal separator, wherever
-- the separator stands inside.
pub create_split-bracketed :
    (regexec : Regexec) (separator sep s : Text) (beyond : List Text)
    → IsLiteral regexec separator sep
    → NoMask sep
    → IsBalanced s
    → create_split_for_operator regexec (b'(' ∷ (s ++ (b')' ∷ []))) separator beyond
      ≡ done ((b'(' ∷ (s ++ (b')' ∷ []))) ∷ [])
unfolding create_split_for_operator match_at
create_split-bracketed regexec separator sep s beyond literal plain balanced =
    let whole : Text = b'(' ∷ (s ++ (b')' ∷ [])) in
    let e : obfuscate_brackets_in_string whole ≡ hidden whole =
      obfuscate-group [] balanced ∙ (unfold obfuscate_from in append-nil (hidden whole)) in
    split_obfuscated_string-whole regexec separator sep 1 literal plain beyond
      (length whole + length beyond + 1) (obfuscate_brackets_in_string whole) whole
      (literal.leftmost (obfuscate_brackets_in_string whole)
        ∙ ap (match_at sep)
            (ap (find_first sep) e ∙ find_first-hidden sep whole literal.not_empty plain))
      (obfuscate-Masks (pos 0) whole)
