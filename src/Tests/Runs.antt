-- ===== src/Tests/Runs.antt =====
-- Starting commands and waiting for them; the options and the status of the program.
use command_stats.Common.{
  ◌<◌, ◌≢◌, ◌==◌, ==_iff, if◌then◌else◌, ℕ, ◌+◌, ◌%◌, ◌≤◌, ◌≡◌, refl, Bool, true, false, List, [],
  ◌∷◌, ◌++◌, none, some, length, arith,
}
use command_stats.Common.Outcome.{done, out_of_fuel}
use command_stats.Common.Text.{codes}
use command_stats.Structs.Node.{Node, executable, operands, pipe_node, NodeFields, Nodes, nil, cons}
use command_stats.Structs.Walk.{count_max_appender_file_descriptors}
use command_stats.Regex.Split.{join}
use command_stats.Execute.System.{System, child, failed, Machine}
use command_stats.Execute.Start.{execute_async}
use command_stats.Execute.Manage.{read_exit_code, start_machine, execute}
use command_stats.Execute.Counting.{FitAppenders, started, execute_async-counts}
use command_stats.Execute.Single.{execute-reported}
use command_stats.Execute.Waiting.{execute-fork_failed}
use command_stats.Main.{default_arguments, word, keyword, parse_arguments, main_return}
use command_stats.Main.Options.{
  Setting, ask_verbose, set_format, spell_all, apply_all, parse_arguments-spell_all,
}
use command_stats.Main.Status.{main_return-low_byte}
use command_stats.Tests.Samples.{
  forks, system, waited, fields_at, make_command, test_command, standard_in, standard_out,
}

abbrev cannot_fork : System
cannot_fork = system (λ n. failed) (λ n. waited 1 0)

-- make | test, wired
abbrev wired_fields : ℕ → NodeFields
wired_fields k = record (fields_at k) { std_in = some standard_in; std_out = some standard_out }

abbrev wired_make : Node
wired_make = executable (wired_fields 2) make_command

abbrev piped : Nodes
piped = cons wired_make (cons (executable (wired_fields 3) test_command) nil)

abbrev wired_pipe : Node
wired_pipe = operands (wired_fields 1) pipe_node none piped

wired_pipe-FitAppenders : FitAppenders wired_pipe
unfolding FitAppenders
wired_pipe-FitAppenders = (tt, (tt, (tt, tt)))

start_pipe :
    (n : Node) × (m : Machine) × (execute_async forks wired_pipe start_machine ≡ done (n, m))
unfolding execute_async
start_pipe = (_, _, refl)

execute_async-counts_example :
    (start_pipe.1.to_wait ≡ start_machine.to_wait + started wired_pipe)
    × (length start_pipe.1.open_appender_fds
        ≤ length start_machine.open_appender_fds + count_max_appender_file_descriptors wired_pipe)
execute_async-counts_example =
    execute_async-counts forks wired_pipe start_machine wired_pipe-FitAppenders start_pipe.2

execute-fork_failed_example : execute 1000 cannot_fork wired_make ≡ out_of_fuel
execute-fork_failed_example =
    execute-fork_failed 1000 cannot_fork (wired_fields 2) make_command standard_in standard_out refl
      refl (λ n. refl) (λ n e. absurd (ground arith))

abbrev settings : List (Bool × Setting)
settings =
    (true, set_format (codes "csv")) ∷ (false, ask_verbose) ∷ (true, set_format (codes "html")) ∷ []

ls-word : keyword (codes "ls") ≡ word
unfolding keyword
ls-word = refl

-- -f csv --verbose -f html ls -h
parse_arguments-spell_all_example :
    parse_arguments (spell_all settings ++ (codes "ls" ∷ codes "-h" ∷ []))
    ≡ record (apply_all default_arguments settings) {
      command = some (join (codes " ") (codes "ls" ∷ codes "-h" ∷ []));
    }
parse_arguments-spell_all_example =
    parse_arguments-spell_all settings (codes "ls") (codes "-h" ∷ []) ls-word

-- wait3 reports two other processes, and then the command
abbrev reports_late : System
reports_late = system (λ n. child 200) (λ n. waited (if n == 4 then 200 else 7) 512)

others_first : (n : ℕ) → n < 2 → (reports_late.wait3 (2 + n)).pid ≢ 200
others_first n lt = ground (arith, lt, ==_iff (2 + n) 4)

execute-reported_example :
    (root : Node) × (m : Machine) × (execute 9 reports_late wired_make ≡ done (root, m))
    × (read_exit_code root ≡ done 512)
execute-reported_example =
    execute-reported 9 2 200 reports_late (wired_fields 2) make_command standard_in standard_out
      refl refl (λ n. refl) (omega arith) others_first refl

main_return-low_byte_example :
    (root : Node) × (m : Machine) × (execute 9 reports_late wired_make ≡ done (root, m))
    × (status : ℕ) × (main_return root ≡ done status)
    × (status ≡ 512)
    × (status % 256 ≡ 0)
main_return-low_byte_example =
    main_return-low_byte 9 2 200 2 reports_late (wired_fields 2) make_command standard_in
      standard_out refl refl (λ n. refl) (omega arith) others_first refl refl
