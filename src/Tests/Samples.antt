-- ===== src/Tests/Samples.antt =====
-- The trees and the commands that the other tests share.
use command_stats.Common.{some, true, false, ◌+◌, ℕ, refl, [], ◌∷◌, none}
use command_stats.Common.Distinct.{Distinct}
use command_stats.Common.Int.{pos}
use command_stats.Execute.System.{System, ForkResult, child, WaitResult}
use command_stats.Common.Text.{Text, codes}
use command_stats.Structs.Stream.{Stream, file_descriptor_stream}
use command_stats.Structs.Node.{
  ExecutionResult, Timeval, NodeFields, ExecutableNode, Node, executable, operands, Nodes, nil,
  cons, pipe_node, and_node, addresses,
}

abbrev pub fields_at : ℕ → NodeFields
fields_at k = record { address = k; std_in = none; std_out = none; result = none; pid = 100 }

-- a command without arguments
abbrev pub command : Text → ExecutableNode
command path = record { path = path; argv = path ∷ []; argc = 1; null_index = 1; cd = [] }

abbrev pub make_command : ExecutableNode
make_command = command (codes "make")

abbrev pub test_command : ExecutableNode
test_command = command (codes "test")

abbrev pub make : Node
make = executable (fields_at 2) make_command

abbrev pub test : Node
test = executable (fields_at 3) test_command

abbrev pub both : Nodes
both = cons make (cons test nil)

abbrev pub and_tree : Node
and_tree = operands (fields_at 1) and_node none both

-- (make && test) | less
abbrev pub tree : Node
tree =
    operands (fields_at 0) pipe_node none
      (cons and_tree (cons (executable (fields_at 4) (command (codes "less"))) nil))

pub tree-Distinct : Distinct (addresses tree)
unfolding addresses
tree-Distinct = (refl, (refl, (refl, (refl, (refl, tt)))))

abbrev pub standard_in : Stream
standard_in = file_descriptor_stream 0

abbrev pub standard_out : Stream
standard_out = file_descriptor_stream 1

abbrev pub no_time : Timeval
no_time = record { tv_sec = 0; tv_usec = 0 }

-- what wait3 reports of a child
abbrev pub waited : ℕ → ℕ → WaitResult
waited pid status = record {
  pid = pid;
  status = status;
  ru_utime = no_time;
  ru_stime = no_time;
  ru_maxrss = 0;
}

-- A system with these answers of fork and wait3.
abbrev pub system : (ℕ → ForkResult) → (ℕ → WaitResult) → System
system fork_result wait3 = record {
  fork_result = fork_result;
  clock = λ n. record { tv_sec = pos n; tv_nsec = pos 0 };
  open_file = λ n f. some 9;
  wait3 = wait3;
  wifexited = λ status. true;
  wexitstatus = λ status. status;
}

abbrev pub forks : System
forks = system (λ n. child (200 + n)) (λ n. waited 1 0)

abbrev pub unfinished : ExecutionResult
unfinished = record {
  invocation_failed = false;
  exit_code = none;
  start_time = record { tv_sec = pos 0; tv_nsec = pos 0 };
  end_time = none;
  user_cpu_time_used = none;
  system_cpu_time_used = none;
  maximum_resident_set_size = none;
}
