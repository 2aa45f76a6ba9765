-- ===== src/Tests/Parsed.antt =====
-- A pipe of two commands, parsed.
use command_stats.Common.{
  ℕ, ◌<◌, false, true, ◌+◌, ◌-◌, ◌≡◌, refl, [], ◌∷◌, Option, none, some, ◌==◌, if◌then◌else◌,
  length,
}
use command_stats.Common.Distinct.{Distinct}
use command_stats.Common.Outcome.{done}
use command_stats.Common.Text.{Text, codes, text_eq}
use command_stats.Structs.Node.{Node, addresses}
use command_stats.Regex.{Regexec, Match, span, split_obfuscated_string}
use command_stats.Regex.Literal.{find_first}
use command_stats.Regex.PastTheEnd.{end_match}
use command_stats.Builtin.Wire.Complete.{HasPipes}
use command_stats.Parse.Operators.{create_split_for_operator, pipe_separator, executable_separator}
use command_stats.Parse.Executable.{create_executable_from_string, match_arguments}
use command_stats.Parse.Brackets.{obfuscate_from, remove_brackets_if_alone}
use command_stats.Parse.Redirect.{create_split_command_from_redirect}
use command_stats.Parse.Lifetime.{Parser, first_parser, initialize, finalize, use_parser}
use command_stats.Parse.Lifetime.Owned.{regexes, use_parser-owned}
use command_stats.Parse.Tree.{Environment, create_node_from_string}
use command_stats.Parse.Tree.Shape.{create_node_from_string-HasPipes}

-- one byte on either side of '|', and the group between
abbrev pipe_match : Option ℕ → Option Match
pipe_match none = none
pipe_match (some i) =
    some (record { whole = span (i - 1) (i + 2); sub = λ _. some (span i (i + 1)) })

-- one argument without quotes, which is group 5
abbrev pub argument_match : Text → Option Match
argument_match [] = none
argument_match (c ∷ cs) = some (record {
  whole = span 0 (length (c ∷ cs));
  sub = λ n. if n == 5 then some (span 0 (length (c ∷ cs))) else none;
})

-- regexec on these patterns, for texts without spaces, quotes and brackets
abbrev plain_regexec : Regexec
plain_regexec pattern s =
    if text_eq pattern pipe_separator
    then pipe_match (find_first (codes "|") s)
    else if text_eq pattern executable_separator
    then some (end_match s)
    else if text_eq pattern match_arguments
    then argument_match s
    else none

abbrev environment : Environment
environment = record {
  regexec = plain_regexec;
  behind = λ next s. [];
  unwritten_pid = λ next. 0;
  regfree_again = true;
}

parsed :
    (n : Node) × (after : ℕ) × (create_node_from_string 3 environment 0 (codes "ls|wc")
      ≡ done (n, after))
unfolding create_node_from_string create_split_command_from_redirect text_eq
    remove_brackets_if_alone create_split_for_operator split_obfuscated_string obfuscate_from
    find_first create_executable_from_string
parsed = (_, _, refl)

create_node_from_string-HasPipes_example : Distinct (addresses parsed.0) × HasPipes parsed.0
create_node_from_string-HasPipes_example =
    create_node_from_string-HasPipes 3 environment 0 (codes "ls|wc") parsed.2

use_parser-owned_example :
    (p : Parser) × (use_parser
        (λ _. true)
        (initialize ∷ initialize ∷ finalize ∷ initialize ∷ finalize ∷ [])
        first_parser
      ≡ done p)
    × (p.parser_initialized ≡ false)
    × (p.heap.contents ≡ [])
    × (0 < 2 → length (regexes p.entries) ≡ 5)
    × (p.heap.allocated ≡ 10)
use_parser-owned_example =
    use_parser-owned (λ _. true) (initialize ∷ initialize ∷ finalize ∷ initialize ∷ finalize ∷ [])
      (refl, (refl, (refl, (refl, (refl, tt)))))
