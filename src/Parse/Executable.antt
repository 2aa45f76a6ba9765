-- ===== src/Parse/Executable.antt =====
-- The arguments of one command: clear_argument and create_executable_from_string of
-- src/parse/parse.c.
pub mod Ends
use command_stats.Common.{
  ℕ, zero, suc, ◌+◌, ◌-◌, ltb, Bool, true, false, ◌&&◌, List, [], ◌∷◌, ◌++◌, Option, none, some,
  length, drop, ◌==◌, if◌then◌else◌,
}
use command_stats.Common.Outcome.{Outcome, done, exited, fault, out_of_fuel, ◌>>=◌}
use command_stats.Common.Text.{Text, codes}
use command_stats.Structs.Node.{ExecutableNode}
use command_stats.Regex.{Regexec, Match, Span, create_string_from_match, count_occurrences_of_regex}

abbrev pub clear_arguments : Text
clear_arguments = codes "([^\\\\]+)"

-- strchr (text, byte) != NULL
unfoldable pub contains_byte : ℕ → Text → Bool
contains_byte b [] = false
contains_byte b (c ∷ cs) = elim (c == b) [ true ↦ true | false ↦ contains_byte b cs ]

-- the loop of clear_argument: `res` takes each match
unfoldable pub clear_loop : ℕ → Regexec → Text → Text → Outcome Text
clear_loop zero regexec to_clear res = out_of_fuel
clear_loop (suc k) regexec to_clear res = elim (regexec clear_arguments to_clear) [
  | none ↦ done res
  | some m ↦
      clear_loop k regexec (drop m.whole.rm_eo to_clear)
        (res ++ create_string_from_match to_clear m.whole)
]

unfoldable pub clear_argument : ℕ → Regexec → Text → Outcome Text
unfolding contains_byte clear_loop create_string_from_match
clear_argument k regexec to_clear =
    let cleared = clear_loop k regexec to_clear [] in
    if contains_byte b'\\' to_clear then cleared else done to_clear

abbrev pub match_arguments : Text
match_arguments = codes "( *\"(([^\"\\\\]|\\\\.)+)\" *)|( *([^\"][^ ]*) *)"

-- The variables of the loop: `position` is the offset of `string` in the command, `argv` what is
-- written, and `last_arg_end` the offset of that pointer, none for NULL. `room` is how many bytes are
-- allocated behind the last argument and its closing zero.
pub record Arguments : Type 0 where
  pub string : Text
  pub position : ℕ
  pub argv : List Text
  pub last_arg_end : Option ℕ
  pub last_arg_was_quoted : Bool
  pub joined_arguments : ℕ
  pub room : ℕ

-- Group 5, or group 2 where group 5 is empty or takes no part; with `arg_is_quoted`.
unfoldable pub match_to_use : Match → Option (Span × Bool)
match_to_use m = elim (m.sub 5) [
  | none ↦ elim (m.sub 2) [ none ↦ none | some s ↦ some (s, true) ]
  | some s ↦
      if s.rm_so == s.rm_eo
      then (elim (m.sub 2) [ none ↦ none | some t ↦ some (t, true) ])
      else some (s, false)
]

-- argv[i - 1] = strcat (argv[i - 1], more)
unfoldable pub append_to_last : List Text → Text → List Text
append_to_last [] more = []
append_to_last (a ∷ []) more = (a ++ more) ∷ []
append_to_last (a ∷ (b ∷ rest)) more = a ∷ append_to_last (b ∷ rest) more

-- (start - 2) == last_arg_end
abbrev pub follows : ℕ → Option ℕ → Bool
follows start none = false
follows start (some end) = start == end + 2

abbrev pub joins : Arguments → Span → Bool → Bool
joins a s quoted = quoted && a.last_arg_was_quoted && follows (a.position + s.rm_so) a.last_arg_end

-- what clear_argument allocates: strdup, or as much as the text has without its closing zero
abbrev pub capacity : Text → ℕ
capacity to_clear = if contains_byte b'\\' to_clear then length to_clear else length to_clear + 1

-- strcat writes behind what is allocated
unfoldable pub overflows : Arguments → Span → Bool → Text → Bool
overflows a s quoted argument = joins a s quoted && ltb a.room (length argument)

-- `text` is the argument as it is matched, and `argument` what clear_argument makes of it.
unfoldable pub take_argument : Arguments → Match → Span → Bool → Text → Text → Arguments
unfolding append_to_last contains_byte
take_argument a m s quoted text argument =
    let joined = joins a s quoted in
    record {
      string = drop m.whole.rm_eo a.string;
      position = a.position + m.whole.rm_eo;
      argv = if joined then append_to_last a.argv argument else a.argv ++ argument ∷ [];
      last_arg_end = some (a.position + s.rm_eo);
      last_arg_was_quoted = quoted;
      joined_arguments = if joined then a.joined_arguments + 1 else a.joined_arguments;
      room = if joined then a.room - length argument else capacity text - (length argument + 1);
    }

-- The loop of create_executable_from_string. An argument that is joined does not move `i`, so a
-- round may find no match: the source reports that and leaves the loop. Where the buffer of the last
-- argument is too small for the one that is joined, strcat is a fault.
unfoldable pub arguments_loop : ℕ → Regexec → ℕ → Arguments → Outcome Arguments
unfolding match_to_use overflows take_argument clear_argument
arguments_loop zero regexec arguments_count a = out_of_fuel
arguments_loop (suc k) regexec arguments_count a = elim (length a.argv == arguments_count) [
  | true ↦ done a
  | false ↦ elim (regexec match_arguments a.string) [
    | none ↦ done a
    | some m ↦ elim (match_to_use m) [
      | none ↦ fault
      | some (s, quoted) ↦
          let text = create_string_from_match a.string s in
          clear_argument (length text + 1) regexec text >>= λ argument.
          elim (overflows a s quoted argument) [
            | true ↦ fault
            | false ↦
                arguments_loop k regexec arguments_count (take_argument a m s quoted text argument)
          ]
    ]
  ]
]

abbrev start_arguments : Text → Arguments
start_arguments string = record {
  string = string;
  position = 0;
  argv = [];
  last_arg_end = none;
  last_arg_was_quoted = false;
  joined_arguments = 0;
  room = 0;
}

-- create_executable_node, but for the fields that every node has (Parse.Tree.create_node). It leaves
-- `argv` and `argc` to its caller, which writes them at once.
abbrev pub create_executable_node : Text → ExecutableNode
create_executable_node path = record { path = path; argv = []; argc = 0; null_index = 0; cd = [] }

-- create_executable_from_string, of the first piece; the source reads argv[0] for the path.
unfoldable pub create_executable_from_string : Regexec → Text → List Text → Outcome ExecutableNode
unfolding arguments_loop
create_executable_from_string regexec string beyond =
    count_occurrences_of_regex (length string + length beyond + 2) regexec match_arguments string
      beyond
    >>= λ arguments_count. elim (arguments_count == 0) [
      | true ↦ exited 1
      | false ↦
          arguments_loop (length string + 2) regexec arguments_count (start_arguments string)
          >>= λ a. elim a.argv [
            | [] ↦ fault
            | ◌∷◌ path rest ↦ done (record (create_executable_node path) {
              argv = a.argv;
              argc = arguments_count - a.joined_arguments;
              null_index = arguments_count;
            })
          ]
    ]
