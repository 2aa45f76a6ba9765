-- ===== src/Execute/Start.antt =====
-- Starting nodes: execute_async of src/execute/execute.c and what it calls, in the parent process.
use command_stats.Common.{
  ◌+◌, Bool, true, not, List, [], ◌∷◌, ◌++◌, Option, none, some, ◌==◌, if◌then◌else◌,
}
use command_stats.Common.Outcome.{Outcome, done, fault, ◌>>=◌}
use command_stats.Structs.Stream.{
  Direction, read_from_pipe, write_into_pipe, Stream, file_descriptor_stream, file_stream,
  pipe_stream, Appender,
}
use command_stats.Structs.Node.{
  ExecutionResult, NodeFields, ExecutableNode, pipe_node, and_node, or_node, semicolon_node, Node,
  executable, operands, Nodes, nil, cons,
}
use command_stats.Execute.System.{
  ForkResult, failed, child, System, Descriptor, numbered, pipe_end, close_call, fork_child,
  fork_appender, Machine, call, ask, open_pipe_if_needed, open_redirect_file_if_needed,
  create_execution_result,
}

-- close of one end of a pipe, where the stream is one
abbrev pub close_if_pipe : Stream → Direction → Machine → Machine
close_if_pipe (pipe_stream p _) direction m = call (close_call (pipe_end p direction)) m
close_if_pipe (file_descriptor_stream fd) direction m = m
close_if_pipe (file_stream f) direction m = m

-- execute_executable_async after the fork
unfoldable pub fork_executable :
    ForkResult
    → NodeFields
    → ExecutableNode
    → Stream
    → Stream
    → ExecutionResult
    → Machine
    → Node × Machine
fork_executable failed f e std_in std_out result m = (executable (record f { result = none }) e, m)
fork_executable (child pid) f e std_in std_out result m = (
  executable (record f { result = some result; pid = pid }) e,
  close_if_pipe std_out write_into_pipe
      (close_if_pipe std_in read_from_pipe (call (fork_child pid) m)),
)

-- of the node's two streams
abbrev pub open_pipes_if_needed : Stream → Stream → Machine → Machine
open_pipes_if_needed std_in std_out m = open_pipe_if_needed std_out (open_pipe_if_needed std_in m)

-- execute_executable_async of a node with these streams
unfoldable pub execute_with_streams :
    System → NodeFields → ExecutableNode → Stream → Stream → Machine → Node × Machine
unfolding fork_executable open_pipe_if_needed create_execution_result
execute_with_streams sys f e std_in std_out m =
    let opened = open_pipes_if_needed std_in std_out m in
    let (result, m') = create_execution_result sys opened in
    fork_executable (sys.fork_result m'.asked) f e std_in std_out result
      (ask (record m' { to_wait = m'.to_wait + 1 }))

-- A node that has not been wired has no streams to read.
unfoldable pub execute_executable_async :
    System → NodeFields → ExecutableNode → Machine → Outcome (Node × Machine)
unfolding execute_with_streams
execute_executable_async sys f e m = elim f.std_in [
  | none ↦ fault
  | some std_in ↦ elim f.std_out [
    | none ↦ fault
    | some std_out ↦ done (execute_with_streams sys f e std_in std_out m)
  ]
]

-- descriptor != STDOUT_FILENO
unfoldable pub is_not_stdout : Descriptor → Bool
is_not_stdout (numbered fd) = not (fd == 1)
is_not_stdout (pipe_end p direction) = true

-- The parent's loop over appender->from. A stream that is no pipe has no `options.pipe`.
unfoldable pub close_from : List Stream → Machine → Outcome Machine
close_from [] m = done m
close_from (pipe_stream p direction ∷ from) m = close_from from (
    call (close_call (pipe_end p read_from_pipe))
      (record m { open_appender_fds = m.open_appender_fds ++ p ∷ [] }))
close_from (file_descriptor_stream fd ∷ from) m = fault
close_from (file_stream f ∷ from) m = fault

unfoldable pub open_pipes : List Stream → Machine → Machine
open_pipes [] m = m
open_pipes (s ∷ ss) m = open_pipes ss (open_pipe_if_needed s m)

-- init_appender after the fork, in the parent: where the fork has failed nothing is closed.
unfoldable pub start_appender : ForkResult → Appender → Descriptor → Machine → Outcome Machine
unfolding is_not_stdout close_from
start_appender failed a to m = done m
start_appender (child pid) a to m =
    let forked = call fork_appender m in
    let closed = if is_not_stdout to then call (close_call to) forked else forked in
    close_from a.from (close_if_pipe a.to write_into_pipe closed)

unfoldable pub init_appender : System → Appender → Machine → Outcome Machine
unfolding start_appender open_pipes open_redirect_file_if_needed open_pipe_if_needed
init_appender sys a m =
    open_redirect_file_if_needed sys a.to (open_pipe_if_needed a.to m) >>= λ (to, m').
    start_appender (sys.fork_result (open_pipes a.from m').asked) a to (ask (open_pipes a.from m'))

-- execute_async: an executable is forked, a pipe starts all its operands, another operator its
-- appender and its first operand.
unfoldable mutual
  unfolding execute_executable_async init_appender

  pub execute_async : System → Node → Machine → Outcome (Node × Machine)
  execute_async sys (executable f e) m = execute_executable_async sys f e m
  execute_async sys (operands f pipe_node a ns) m =
      let (result, m') = create_execution_result sys m in
      execute_all_async sys ns m' >>= λ (ms, m'').
      done (operands (record f { result = some result }) pipe_node a ms, m'')
  execute_async sys (operands f and_node a ns) m =
      let (result, m') = create_execution_result sys m in
      execute_first_async sys a ns m' >>= λ (ms, m'').
      done (operands (record f { result = some result }) and_node a ms, m'')
  execute_async sys (operands f or_node a ns) m =
      let (result, m') = create_execution_result sys m in
      execute_first_async sys a ns m' >>= λ (ms, m'').
      done (operands (record f { result = some result }) or_node a ms, m'')
  execute_async sys (operands f semicolon_node a ns) m =
      let (result, m') = create_execution_result sys m in
      execute_first_async sys a ns m' >>= λ (ms, m'').
      done (operands (record f { result = some result }) semicolon_node a ms, m'')

  -- the loop of execute_pipe_async
  pub execute_all_async : System → Nodes → Machine → Outcome (Nodes × Machine)
  execute_all_async sys nil m = done (nil, m)
  execute_all_async sys (cons n ns) m = execute_async sys n m >>= λ (n', m').
      execute_all_async sys ns m' >>= λ (ns', m''). done (cons n' ns', m'')

  -- execute_first_operand_async_and_start_appender
  pub execute_first_async : System → Option Appender → Nodes → Machine → Outcome (Nodes × Machine)
  execute_first_async sys a nil m = done (nil, m)
  execute_first_async sys none (cons n ns) m = fault
  execute_first_async sys (some appender) (cons n ns) m = init_appender sys appender m >>= λ m'.
      execute_async sys n m' >>= λ (n', m''). done (cons n' ns, m'')
