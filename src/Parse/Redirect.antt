-- ===== src/Parse/Redirect.antt =====
-- The redirections at the end of a command: create_split_command_from_redirect of
-- src/parse/parse.c, and what it calls.
pub mod Last
pub mod Ends
use command_stats.Common.{
  ℕ, zero, suc, ◌+◌, Bool, true, false, List, [], ◌∷◌, Option, none, some, length, take, drop, ◌==◌,
  if◌then◌else◌,
}
use command_stats.Common.Outcome.{Outcome, done, fault, out_of_fuel, ◌>>=◌}
use command_stats.Common.Text.{Text, codes}
use command_stats.Regex.{Regexec, Match, Span, create_string_from_match}
use command_stats.Structs.Stream.{
  OpenFlag, read_only, create_truncate, create_append, FileStream, Stream, file_stream,
}
use command_stats.Structs.Node.{NodeFields}

-- struct RedirectSplit; `in` and `out` of the source are `input` and `output`
pub record RedirectSplit : Type 0 where
  pub command : Text
  pub has_redirects : Bool
  pub input : Option FileStream
  pub output : Option FileStream

abbrev pub match_redirect_and_file_name_if_last : Text
match_redirect_and_file_name_if_last = codes "((>>|>|<) *([a-zA-Z\\.]*))+$"

unfoldable pub create_redirect_with_command_from_string : Regexec → Text → RedirectSplit
create_redirect_with_command_from_string regexec str =
    elim (regexec match_redirect_and_file_name_if_last str) [
      | none ↦ record { command = str; has_redirects = false; input = none; output = none }
      | some m ↦ record {
        command = take m.whole.rm_so str;
        has_redirects = true;
        input = none;
        output = none;
      }
    ]

-- redirect_type[0] == '>', and strlen (redirect_type) == 1
abbrev pub is_output : Text → Bool
is_output [] = false
is_output (c ∷ cs) = c == b'>'

abbrev pub output_flag : Text → OpenFlag
output_flag redirect_type = if length redirect_type == 1 then create_truncate else create_append

-- One round of the loop: the stream that the redirection sets is written over.
unfoldable pub set_redirect : RedirectSplit → Text → Text → RedirectSplit
set_redirect split redirect_type file_name =
    if is_output redirect_type
    then record split {
      output = some (record { name = file_name; open_flag = output_flag redirect_type });
    }
    else record split { input = some (record { name = file_name; open_flag = read_only }) }

-- The loop of fill_redirect_with_redirects_and_file_names. A group that takes no part is a fault.
unfoldable pub fill_redirect_with_redirects_and_file_names :
    ℕ → Regexec → RedirectSplit → Text → Outcome RedirectSplit
unfolding set_redirect create_string_from_match
fill_redirect_with_redirects_and_file_names zero regexec split str = out_of_fuel
fill_redirect_with_redirects_and_file_names (suc k) regexec split str =
    elim (regexec match_redirect_and_file_name_if_last str) [
      | none ↦ done split
      | some m ↦ elim (m.sub 2) [
        | none ↦ fault
        | some redirect_type ↦ elim (m.sub 3) [
          | none ↦ fault
          | some file_name ↦
              fill_redirect_with_redirects_and_file_names k regexec
                (set_redirect split (create_string_from_match str redirect_type)
                  (create_string_from_match str file_name))
                (drop file_name.rm_eo str)
        ]
      ]
    ]

-- The loop starts at the beginning of the command again.
unfoldable pub create_split_command_from_redirect : ℕ → Regexec → Text → Outcome RedirectSplit
unfolding create_redirect_with_command_from_string fill_redirect_with_redirects_and_file_names
create_split_command_from_redirect k regexec str =
    let split = create_redirect_with_command_from_string regexec str in
    if split.has_redirects
    then fill_redirect_with_redirects_and_file_names k regexec split str
    else done split

abbrev pub redirected : Option FileStream → Option Stream → Option Stream
redirected none s = s
redirected (some f) s = some (file_stream f)

unfoldable pub redirect_streams_of_node_to_files : NodeFields → RedirectSplit → NodeFields
redirect_streams_of_node_to_files parsed split = record parsed {
  std_in = redirected split.input parsed.std_in;
  std_out = redirected split.output parsed.std_out;
}
