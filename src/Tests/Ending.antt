-- ===== src/Tests/Ending.antt =====
-- The parser ends on a command of two parts.
use command_stats.Common.{
  true, ◌<◌, ◌≤◌, ◌≡◌, refl, ap, [], ◌∷◌, none, some, if◌then◌else◌, length, arith,
}
use mathlib.Core.Path.{subst}
use mathlib.Core.Option.{some-injective}
use command_stats.Common.Outcome.{Ends}
use command_stats.Common.Text.{Text, codes, text_eq}
use command_stats.Regex.{Regexec, Match, Span}
use command_stats.Regex.Literal.{find_first, match_at, IsLiteral}
use command_stats.Regex.PastTheEnd.{end_match}
use command_stats.Regex.Ends.{literal-Takes}
use command_stats.Parse.Operators.{semicolon_separator, executable_separator}
use command_stats.Parse.Executable.{match_arguments}
use command_stats.Parse.Tree.{Environment, create_node_from_string}
use command_stats.Parse.Tree.Ends.{IsRegexec, create_node_from_string-Ends}
use command_stats.Tests.Parsed.{argument_match}

-- regexec on these patterns, for texts without spaces, quotes and brackets
abbrev regexec : Regexec
regexec pattern s =
    if text_eq pattern semicolon_separator
    then match_at (codes ";") (find_first (codes ";") s)
    else if text_eq pattern executable_separator
    then some (end_match s)
    else if text_eq pattern match_arguments
    then argument_match s
    else none

abbrev environment : Environment
environment = record {
  regexec = regexec;
  behind = λ next s. [];
  unwritten_pid = λ next. 0;
  regfree_again = true;
}

semicolon : IsLiteral regexec semicolon_separator (codes ";")
unfolding text_eq
semicolon = record { not_empty = λ e. ground (arith, e); leftmost = λ s. refl }

argument_match-whole :
    (t : Text) (m : Match)
    → argument_match t ≡ some m
    → (m.whole.rm_so < m.whole.rm_eo) × (m.whole.rm_eo ≤ length t)
argument_match-whole [] m h = let bad : none ≡ some m = h in cc
argument_match-whole (c ∷ cs) m h =
    let e = ap (λ (m : Match). m.whole) (some-injective _ m h) in
    subst (λ (s : Span). (s.rm_so < s.rm_eo) × (s.rm_eo ≤ length (c ∷ cs))) e
      (omega arith, omega arith)

never : {x : Match} {A : Type 0} → none ≡ some x → A
never {x} h = let bad : none ≡ some x = h in cc

regexec-IsRegexec : IsRegexec regexec
unfolding text_eq
regexec-IsRegexec =
    let literal = literal-Takes regexec semicolon_separator (codes ";") semicolon in
    record {
      operators = (
        (λ t m h. never h, λ t m s h k. never h),
        (
          (λ t m h. never h, λ t m s h k. never h),
          ((λ t m h. never h, λ t m s h k. never h), (literal, tt)),
        ),
      );
      executable = λ s. refl;
      arguments = argument_match-whole;
      escapes = λ t m h. never h;
      redirects = λ t m s h k. never h;
    }

create_node_from_string-Ends_example : Ends (create_node_from_string 4 environment 0 (codes "a;b"))
create_node_from_string-Ends_example =
    create_node_from_string-Ends 4 environment 0 (codes "a;b") regexec-IsRegexec (omega arith)
