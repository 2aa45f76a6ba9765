-- ===== src/Tests/Children.antt =====
-- The children of the execution, and the index of a command.
use command_stats.Common.{
  All, ◌⊎◌, ℕ, ◌≡◌, ◌<◌, refl, Bool, true, false, List, [], ◌∷◌, ◌++◌, none, some, arith, length,
  if◌then◌else◌, ◌==◌, ◌↔◌,
}
use command_stats.Common.Outcome.{done, fault}
use command_stats.Common.Text.{Text, codes}
use command_stats.Structs.Stream.{
  create_truncate, FileStream, read_from_pipe, Stream, file_stream, pipe_stream,
  file_descriptor_stream,
}
use command_stats.Structs.Node.{ExecutableNode}
use command_stats.Copy.{ReadResult, bytes, Write}
use command_stats.Copy.Whole.{received, TakesAll}
use command_stats.Execute.System.{numbered}
use command_stats.Execute.Child.{
  Process, ChildSystem, going, ended, set_entry, open_redirect_file, run_execute_executable_child,
}
use command_stats.Execute.Child.Streams.{IsConnected}
use command_stats.Execute.Child.Ends.{
  enter, run_execute_executable_child-IsConnected, run_execute_executable_child-ended,
}
use command_stats.Execute.Appender.{closed, run_appender_main}
use command_stats.Execute.Appender.Gather.{
  reading, gathered, read_ends, write_ends, run_appender_main-gathered,
}
use command_stats.Print.Hash.{hash}
use command_stats.Print.Hash.Overflow.{IsByte, hash-overflow}
use command_stats.Tests.Samples.{make_command}

-- directories and open files by their names; a file is opened as descriptor 7 unless it is forbidden
abbrev child_system : Bool → ChildSystem Text Text
child_system allowed = record {
  chdir = λ directory below. some below;
  open_file = λ p f. if allowed then some (7, f.name) else none;
  execvp = λ p e. true;
  descriptors = λ p direction. 5;
}

abbrev father : Process Text Text
father = record {
  directory = codes "/";
  entry =
      λ k. if k == 5 then some (codes "pipe") else if k == 0 then some (codes "terminal") else none;
}

abbrev in_source : ExecutableNode
in_source = record make_command { cd = codes "src" ∷ [] }

abbrev into_file : Stream
into_file = file_stream (record { name = codes "log"; open_flag = create_truncate })

abbrev opened : Process Text Text
opened = record { directory = codes "src"; entry = set_entry 7 (some (codes "log")) father.entry }

in_source-enter : enter (child_system true) in_source.cd father.directory ≡ some (codes "src")
unfolding enter
in_source-enter = refl

opens_pipe :
    open_redirect_file
      (child_system true)
      (pipe_stream 3 read_from_pipe)
      (record father { directory = codes "src" })
    ≡ going (5, record father { directory = codes "src" })
unfolding open_redirect_file
opens_pipe = refl

opens_log :
    open_redirect_file (child_system true) into_file (record father { directory = codes "src" })
    ≡ going (7, opened)
unfolding open_redirect_file
opens_log = refl

run_execute_executable_child-IsConnected_example :
    (q : Process Text Text) × (run_execute_executable_child
        (child_system true)
        in_source
        (pipe_stream 3 read_from_pipe)
        into_file
        (8 ∷ [])
        father
      ≡ going q)
    × (q.directory ≡ codes "src")
    × IsConnected 5 7 (8 ∷ []) opened q
run_execute_executable_child-IsConnected_example =
    run_execute_executable_child-IsConnected (child_system true) in_source
      (pipe_stream 3 read_from_pipe) into_file (8 ∷ []) father
      (record father { directory = codes "src" }) opened (codes "src") 5 7 in_source-enter
      opens_pipe opens_log (omega arith) (omega arith) (λ q. refl)

ends_silently :
    run_execute_executable_child
      (child_system false)
      in_source
      (pipe_stream 3 read_from_pipe)
      into_file
      []
      father
    ≡ ended false 1
unfolding run_execute_executable_child
ends_silently = refl

run_execute_executable_child-ended_example :
    (f : FileStream) × (q : Process Text Text) × ((pipe_stream 3 read_from_pipe ≡ file_stream f)
      ⊎ (into_file ≡ file_stream f))
    × ((child_system false).open_file q f ≡ none)
    × ◌≡◌ {A = ℕ} 1 1
run_execute_executable_child-ended_example =
    run_execute_executable_child-ended (child_system false) in_source (pipe_stream 3 read_from_pipe)
      into_file [] father 1 ends_silently

abbrev operand_output : ℕ → List ReadResult
operand_output p =
    if p == 0 then bytes (codes "one") ∷ [] else bytes (codes "two") ∷ bytes (codes "three") ∷ []

abbrev whole_writes : Write
whole_writes out buffer = some (length buffer)

whole_writes-TakesAll : TakesAll whole_writes
whole_writes-TakesAll out buffer = refl

run_appender_main-gathered_example :
    run_appender_main whole_writes operand_output
      (record { from = reading (0 ∷ 1 ∷ []); to = file_descriptor_stream 1 })
      (numbered 1)
      []
    ≡ done (record {
      out = gathered operand_output (0 ∷ 1 ∷ []);
      events = write_ends (0 ∷ 1 ∷ []) ++ (read_ends (0 ∷ 1 ∷ []) ++ closed (numbered 1) ∷ []);
    })
run_appender_main-gathered_example =
    run_appender_main-gathered whole_writes operand_output (0 ∷ 1 ∷ []) (file_descriptor_stream 1)
      (numbered 1) [] whole_writes-TakesAll

all_gathered : gathered operand_output (0 ∷ 1 ∷ []) ≡ codes "onetwothree"
unfolding gathered received
all_gathered = refl

abbrev long_command : Text
long_command = codes "sleep 1; ls"

long_command-IsByte : All IsByte long_command
long_command-IsByte = omega arith

hash-overflow_example : (hash 4242 long_command ≡ fault) ↔ (10 < length long_command)
hash-overflow_example = hash-overflow 4242 long_command long_command-IsByte (omega arith)
