-- ===== src/Tests/Commands.antt =====
-- Texts of commands: counting, splitting, brackets and redirections.
use command_stats.Common.{
  ◌⊎◌, suc, ◌≡◌, refl, true, false, zero, List, [], ◌∷◌, ◌++◌, none, some, arith,
}
use command_stats.Common.Int.{◌+ℤ◌}
use command_stats.Common.Outcome.{done}
use command_stats.Common.Text.{Text, codes}
use command_stats.Structs.Stream.{create_append}
use command_stats.Regex.{
  Regexec, Match, span, create_string_from_match, count_occurrences_of_regex,
  split_obfuscated_string,
}
use command_stats.Regex.Literal.{IsLiteral, find_first, match_at}
use command_stats.Regex.Split.{NoMask, Masks-self, join, split_obfuscated_string-join}
use command_stats.Regex.PastTheEnd.{MatchesEnd, end_match, count-past_the_end}
use command_stats.Parse.Brackets.{
  obfuscate_from, obfuscate_brackets_in_string, remove_brackets_if_alone,
}
use command_stats.Parse.Brackets.Masking.{IsBalanced, empty, plain, group, hidden, obfuscate-group}
use command_stats.Parse.Brackets.Closing.{unescaped, NeverBelow, IsAbove, remove_brackets-IsAbove}
use command_stats.Parse.Operators.{
  and_separator, executable_separator, create_split_for_operator, create_split-join,
  create_split-bracketed,
}
use command_stats.Parse.Redirect.{create_split_command_from_redirect}

-- regexec for a pattern that is "&&", with or without brackets
abbrev find_and : Regexec
find_and pattern s = match_at (codes "&&") (find_first (codes "&&") s)

find_and-IsLiteral : IsLiteral find_and and_separator (codes "&&")
find_and-IsLiteral = record { not_empty = λ e. absurd (ground arith); leftmost = λ s. refl }

and-NoMask : NoMask (codes "&&")
and-NoMask = (λ e. absurd (ground arith), (λ e. absurd (ground arith), tt))

abbrev memory : List Text
memory = codes "left over" ∷ codes "by free" ∷ []

split_obfuscated_string-join_example :
    (pieces : List Text) × (split_obfuscated_string 9 find_and
        (codes "a && b")
        and_separator
        1
        (codes "a && b")
        memory
      ≡ done pieces)
    × (join (codes "&&") pieces ≡ codes "a && b")
split_obfuscated_string-join_example =
    split_obfuscated_string-join find_and and_separator (codes "&&") 1 find_and-IsLiteral and-NoMask
      memory 9 (codes "a && b") (codes "a && b") (omega arith) (Masks-self (codes "a && b"))

create_split-join_example :
    (pieces : List Text) × (create_split_for_operator find_and
        (codes "a && (b && c)")
        and_separator
        memory
      ≡ done pieces)
    × (join (codes "&&") pieces ≡ codes "a && (b && c)")
create_split-join_example =
    create_split-join find_and and_separator (codes "&&") (codes "a && (b && c)") memory
      find_and-IsLiteral and-NoMask

-- the pieces of that command
split_and :
    create_split_for_operator find_and (codes "a && (b && c)") and_separator memory
    ≡ done (codes "a " ∷ codes " (b && c)" ∷ [])
unfolding create_split_for_operator split_obfuscated_string find_first match_at obfuscate_from ◌+ℤ◌
split_and = refl

a-IsBalanced : IsBalanced (codes "a&&(b)")
a-IsBalanced =
    plain refl refl (plain refl refl (plain refl refl (group (plain refl refl empty) empty refl)))

create_split-bracketed_example :
    create_split_for_operator find_and (codes "(a&&(b))") and_separator memory
    ≡ done (codes "(a&&(b))" ∷ [])
create_split-bracketed_example =
    create_split-bracketed find_and and_separator (codes "&&") (codes "a&&(b)") memory
      find_and-IsLiteral and-NoMask a-IsBalanced

obfuscate-group_example :
    obfuscate_brackets_in_string (codes "(a&&(b)) && c")
    ≡ hidden (codes "(a&&(b))") ++ obfuscate_brackets_in_string (codes " && c")
obfuscate-group_example = obfuscate-group (codes " && c") a-IsBalanced

-- regexec for the brackets around (a) && (b)
abbrev around : Match
around = record { whole = span 0 10; sub = λ _. some (span 1 9) }

abbrev find_around : Regexec
find_around pattern s = some around

remove_brackets-IsAbove_example :
    (NeverBelow 0 0 (unescaped false (codes "a) && (b"))
      × (remove_brackets_if_alone find_around true (codes "(a) && (b)") ≡ done (codes "a) && (b")))
    ⊎ (IsAbove 0 0 (unescaped false (codes "a) && (b"))
        × (remove_brackets_if_alone find_around true (codes "(a) && (b)")
            ≡ done (codes "(a) && (b)")))
unfolding create_string_from_match
remove_brackets-IsAbove_example =
    remove_brackets-IsAbove find_around true (codes "(a) && (b)") around (span 1 9) refl refl

-- regexec for "($)"
abbrev find_end : Regexec
find_end pattern s = some (end_match s)

find_end-MatchesEnd : (pattern : Text) → MatchesEnd find_end pattern
find_end-MatchesEnd pattern s = refl

count-past_the_end_example :
    count_occurrences_of_regex 4 find_end executable_separator (codes "ls") memory ≡ done 3
count-past_the_end_example =
    count-past_the_end find_end executable_separator (find_end-MatchesEnd executable_separator)
      (codes "ls") memory (λ e. absurd (ground arith))
      (λ e. absurd (ground arith), (λ e. absurd (ground arith), tt))

-- ls >a >>b, where regexec matches ">a >>b" and its groups stand for ">>" and "b"
abbrev two_files : Text
two_files = codes "ls >a>>b"

abbrev last_file : Match
last_file = record {
  whole = span 3 8;
  sub = λ n. elim n [ suc (suc zero) ↦ some (span 5 7) | _ ↦ some (span 7 8) ];
}

abbrev find_redirect : Regexec
find_redirect pattern [] = none
find_redirect pattern (c ∷ cs) = some last_file

-- the redirection to `a` is gone
only_last :
    create_split_command_from_redirect 2 find_redirect two_files
    ≡ done (record {
      command = codes "ls ";
      has_redirects = true;
      input = none;
      output = some (record { name = codes "b"; open_flag = create_append });
    })
unfolding create_split_command_from_redirect
only_last = refl
