-- ===== src/Main.antt =====
-- src/main.c: the command line, and the run of a command from its text to its log. What is
-- printed goes through the pipe of the booking to the daemon: here it is the text of the context.
pub mod Options
pub mod Status
use command_stats.Common.{
  ℕ, zero, suc, ◌+◌, Bool, true, false, ◌||◌, List, [], ◌∷◌, ◌++◌, Option, none, some,
  if◌then◌else◌, length,
}
use command_stats.Common.Int.{ℤ}
use command_stats.Common.Outcome.{Outcome, done, exited, fault, ◌>>=◌}
use command_stats.Common.Text.{Text, codes, text_eq}
use command_stats.Structs.Node.{Node}
use command_stats.Parse.Tree.{Environment, create_node_from_string}
use command_stats.Builtin.Cd.{apply_cd_builtin}
use command_stats.Builtin.Wire.{wire_redirects}
use command_stats.Execute.System.{System, Machine}
use command_stats.Execute.Manage.{read_exit_code, execute}
use command_stats.Print.Attributes.{parse_attributes}
use command_stats.Print.Printer.{Library, Context}
use command_stats.Print.Results.{print_results}
use command_stats.Daemon.Message.{BookingInfo}
use command_stats.Daemon.Lock
use command_stats.Daemon.Lock.{Session, start_daemon}
use command_stats.Daemon.Client.{Client, book_and_obtain_log_fd}

-- Arguments, and the variable that enable_logging sets
pub record Arguments : Type 0 where
  pub print_help : Bool
  pub stop_daemon : Bool
  pub log_file_path : Text
  pub log_options : Text
  pub command : Option Text
  pub format : Text
  pub log_enabled : Bool

abbrev pub default_arguments : Arguments
default_arguments = record {
  print_help = false;
  stop_daemon = false;
  log_file_path = codes "/tmp/SO_project.log";
  log_options =
      codes
        "invocation_failed,pid,start_time,end_time,total_time,user_cpu_time,system_cpu_time,exit_code";
  command = none;
  format = codes "txt";
  log_enabled = false;
}

-- the chain of strcmp in parse_arguments; `word` is its last else
pub data Keyword : Type 0 where
  help log_file options_list output_format verbose stop word : Keyword

abbrev pub is_either : Text → Text → Text → Bool
is_either short long t = text_eq t short || text_eq t long

unfoldable pub keyword : Text → Keyword
unfolding text_eq
keyword t =
    if is_either (codes "-h") (codes "--help") t
    then help
    else if is_either (codes "-l") (codes "--log-file") t
    then log_file
    else if is_either (codes "-o") (codes "--options") t
    then options_list
    else if is_either (codes "-f") (codes "--format") t
    then output_format
    else if is_either (codes "-v") (codes "--verbose") t
    then verbose
    else if is_either (codes "-s") (codes "--stop-daemon") t
    then stop
    else word

-- The strcat loop of concat_strings_with_spaces: a space behind every string but the last.
unfoldable pub concat_strings_with_spaces : List Text → Text
concat_strings_with_spaces [] = []
concat_strings_with_spaces (s ∷ []) = s
concat_strings_with_spaces (s ∷ t ∷ strings) =
    (s ++ codes " ") ++ concat_strings_with_spaces (t ∷ strings)

-- the bytes that concat_strings_with_spaces allocates: `count` and the lengths
unfoldable pub size_of_concat : List Text → ℕ
size_of_concat [] = 0
size_of_concat (s ∷ strings) = 1 + length s + size_of_concat strings

-- The loop of parse_arguments over argv behind the program's name. An option that needs a next
-- argument and has none falls through to the command.
unfoldable pub parse_loop : Arguments → List Text → Arguments
unfolding keyword concat_strings_with_spaces
parse_loop arguments [] = arguments
parse_loop arguments (s ∷ []) = elim (keyword s) [
  | help ↦ record arguments { print_help = true }
  | verbose ↦ record arguments { log_enabled = true }
  | stop ↦ record arguments { stop_daemon = true }
  | _ ↦ record arguments { command = some (concat_strings_with_spaces (s ∷ [])) }
]
parse_loop arguments (s ∷ t ∷ rest) = elim (keyword s) [
  | help ↦ parse_loop (record arguments { print_help = true }) (t ∷ rest)
  | log_file ↦ parse_loop (record arguments { log_file_path = t }) rest
  | options_list ↦ parse_loop (record arguments { log_options = t }) rest
  | output_format ↦ parse_loop (record arguments { format = t }) rest
  | verbose ↦ parse_loop (record arguments { log_enabled = true }) (t ∷ rest)
  | stop ↦ parse_loop (record arguments { stop_daemon = true }) (t ∷ rest)
  | word ↦ record arguments { command = some (concat_strings_with_spaces (s ∷ t ∷ rest)) }
]

unfoldable pub parse_arguments : List Text → Arguments
unfolding parse_loop
parse_arguments arguments = parse_loop default_arguments arguments

-- apply_builtin: apply_cd_builtin, then wire_redirects
unfoldable pub apply_builtin : ℕ → Node → Outcome Node
unfolding apply_cd_builtin wire_redirects
apply_builtin k tree = apply_cd_builtin k tree >>= λ applied. elim (wire_redirects applied) [
  | none ↦ fault
  | some wired ↦ done wired
]

-- create_tree_from_string
unfoldable pub create_tree_from_string : ℕ → Environment → Text → Outcome Node
unfolding create_node_from_string apply_builtin
create_tree_from_string k env raw_string =
    create_node_from_string k env 0 raw_string >>= λ (tree, next). apply_builtin k tree

-- what main returns: command_tree->result->exit_code
unfoldable pub main_return : Node → Outcome ℕ
unfolding read_exit_code
main_return command_tree = read_exit_code command_tree

-- initialize_context, the index being what `hash` returns and `beyond` what stands in memory behind
-- the options
unfoldable pub initialize_context : Environment → ℤ → Text → Text → List Text → Outcome Context
unfolding parse_attributes
initialize_context env index command options_string beyond =
    parse_attributes env.regexec options_string beyond >>= λ attributes. done (record {
      command = command;
      index = index;
      command_subindex = 1;
      attributes = attributes;
      out = [];
      previous_value = false;
    })

-- What surrounds a run: the C library and the system of the parser, of the execution and of the
-- printers, the memory behind the options, the session of the daemon that main starts, and the
-- booking.
pub record Surroundings : Type 0 where
  pub environment : Environment
  pub system : System
  pub library : Library
  pub beyond : List Text
  pub session : Session
  pub client : Client

-- main from the parser on: the message for the daemon, the log that is written, and the value
-- returned. `k` is the fuel of the tree's functions, `seconds` how long the daemon is waited for, and
-- `index` what `hash` returns.
unfoldable pub run_command :
    ℕ → ℕ → Surroundings → ℤ → Arguments → Text → Outcome (BookingInfo × Text × ℕ)
unfolding create_tree_from_string execute book_and_obtain_log_fd initialize_context print_results
    main_return
run_command k seconds r index arguments command =
    create_tree_from_string k r.environment command >>= λ tree.
    execute k r.system tree >>= λ (executed, m).
    book_and_obtain_log_fd seconds r.client arguments.log_file_path 0 >>= λ info.
    initialize_context r.environment index command arguments.log_options r.beyond >>= λ context.
    print_results r.library arguments.format executed context >>= λ printed.
    main_return executed >>= λ status. done (info, printed.out, status)

-- the part of main behind start_daemon
unfoldable pub run_arguments :
    ℕ → ℕ → Surroundings → ℤ → Arguments → Outcome (BookingInfo × Text × ℕ)
unfolding run_command
run_arguments k seconds r index arguments = elim arguments.command [
  | none ↦ exited 1
  | some command ↦ elim (length command) [
    | zero ↦ exited 1
    | suc n ↦ run_command k seconds r index arguments command
  ]
]

-- A process that has become the daemon runs run_daemon_main, which ends with exit (0).
unfoldable pub main : ℕ → ℕ → Surroundings → ℤ → List Text → Outcome (BookingInfo × Text × ℕ)
unfolding parse_arguments Lock.stop_daemon start_daemon run_arguments
main k seconds r index argv =
    let arguments = parse_arguments argv in
    if arguments.print_help
    then exited 0
    else if arguments.stop_daemon
    then (Lock.stop_daemon r.client.kill r.client.lock_file r.client.sessions 0 >>= λ pid. exited 0)
    else (start_daemon r.session >>= λ is_daemon. (elim is_daemon [
      | true ↦ exited 0
      | false ↦ run_arguments k seconds r index arguments
    ]))
