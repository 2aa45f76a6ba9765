-- ===== src/Execute/Counting.antt =====
-- The count of children, and the descriptors of the appenders, after starting a node.
use command_stats.Common.{
  ℕ, suc, ◌+◌, ◌*◌, ◌≤◌, ◌≡◌, refl, List, [], ◌∷◌, ◌++◌, Option, none, some, arith, length,
  length-append, if◌then◌else◌,
}
use command_stats.Common.Outcome.{Outcome, done, bind-eq-done}
use command_stats.Structs.Stream.{
  Direction, read_from_pipe, write_into_pipe, Stream, pipe_stream, file_descriptor_stream,
  file_stream, Appender,
}
use command_stats.Structs.Node.{
  ExecutionResult, NodeFields, ExecutableNode, pipe_node, and_node, or_node, semicolon_node, Node,
  executable, operands, Nodes, nil, cons, to_list,
}
use command_stats.Structs.Walk.{
  own_appender_file_descriptors, count_max_appender_file_descriptors,
  count_max_appender_file_descriptors_of_nodes,
}
use command_stats.Execute.System.{
  ForkResult, fork_child, System, create_execution_result, fork_appender, Descriptor, pipe_end,
  call, close_call, Machine, ask, open_pipe_if_needed, open_redirect_file_if_needed, failed, child,
}
use command_stats.Execute.Start.{
  close_if_pipe, fork_executable, execute_executable_async, execute_with_streams, is_not_stdout,
  close_from, open_pipes, init_appender, start_appender, execute_async, execute_all_async,
  execute_first_async,
}

-- How many executables execute_async starts: all operands of a pipe, the first of another operator.
unfoldable mutual
  pub started : Node → ℕ
  started (executable f e) = 1
  started (operands f pipe_node a ns) = started_all ns
  started (operands f and_node a ns) = started_first ns
  started (operands f or_node a ns) = started_first ns
  started (operands f semicolon_node a ns) = started_first ns

  pub started_all : Nodes → ℕ
  started_all nil = 0
  started_all (cons n ns) = started n + started_all ns

  pub started_first : Nodes → ℕ
  started_first nil = 0
  started_first (cons n ns) = started n

-- An appender reads as many streams as its node has operands.
abbrev pub FitsAppender : Option Appender → Nodes → Type 0
FitsAppender none ns = Unit
FitsAppender (some a) ns = length a.from ≡ length (to_list ns)

unfoldable mutual
  pub FitAppenders : Node → Type 0
  FitAppenders (executable f e) = Unit
  FitAppenders (operands f op a ns) = FitsAppender a ns × FitAppendersBelow ns

  pub FitAppendersBelow : Nodes → Type 0
  FitAppendersBelow nil = Unit
  FitAppendersBelow (cons n ns) = FitAppenders n × FitAppendersBelow ns

-- `m'` counts `w` children more than `m`, and holds at most `d` descriptors of appenders more.
pub record Grows (w d : ℕ) (m m' : Machine) : Type 0 where
  pub waits : m'.to_wait ≡ m.to_wait + w
  pub holds : length m'.open_appender_fds ≤ length m.open_appender_fds + d

open_pipe-Grows : (s : Stream) (m : Machine) → Grows 0 0 m (open_pipe_if_needed s m)
unfolding open_pipe_if_needed
open_pipe-Grows (pipe_stream p d) m = ground arith
open_pipe-Grows (file_descriptor_stream fd) m = omega arith
open_pipe-Grows (file_stream f) m = omega arith

open_pipes-Grows : (ss : List Stream) (m : Machine) → Grows 0 0 m (open_pipes ss m)
unfolding open_pipes
open_pipes-Grows [] m = omega arith
open_pipes-Grows (s ∷ ss) m =
    omega (arith, open_pipe-Grows s m, open_pipes-Grows ss (open_pipe_if_needed s m))

close_if_pipe-Grows : (s : Stream) (d : Direction) (m : Machine) → Grows 0 0 m (close_if_pipe s d m)
close_if_pipe-Grows (pipe_stream p e) d m = omega arith
close_if_pipe-Grows (file_descriptor_stream fd) d m = omega arith
close_if_pipe-Grows (file_stream f) d m = omega arith

close_from-Grows :
    (ss : List Stream) (m : Machine) {m' : Machine}
    → close_from ss m ≡ done m'
    → Grows 0 (length ss) m m'
unfolding close_from
close_from-Grows [] m h = ground arith
close_from-Grows (pipe_stream p d ∷ ss) m h = omega (
  arith,
  close_from-Grows ss
      (call (close_call (pipe_end p read_from_pipe))
        (record m { open_appender_fds = m.open_appender_fds ++ p ∷ [] }))
      h,
  length-append {0} m.open_appender_fds (p ∷ []),
)
close_from-Grows (file_descriptor_stream fd ∷ ss) m h = cc
close_from-Grows (file_stream f ∷ ss) m h = cc

open_redirect-Grows :
    (sys : System) (s : Stream) (m : Machine) {d : Descriptor} {m' : Machine}
    → open_redirect_file_if_needed sys s m ≡ done (d, m')
    → Grows 0 0 m m'
unfolding open_redirect_file_if_needed
open_redirect-Grows sys (pipe_stream p d) m h = ground arith
open_redirect-Grows sys (file_descriptor_stream fd) m h = ground arith
open_redirect-Grows sys (file_stream f) m h = ground arith

start_appender-Grows :
    (r : ForkResult) (a : Appender) (to : Descriptor) (m : Machine) {m' : Machine}
    → start_appender r a to m ≡ done m'
    → Grows 0 (length a.from) m m'
unfolding start_appender
start_appender-Grows failed a to m h = ground arith
start_appender-Grows (child pid) a to m h =
    let forked = call fork_appender m in
    let closed = if is_not_stdout to then call (close_call to) forked else forked in
    let same : Grows 0 0 m closed = ground arith in
    omega (
      arith,
      same,
      close_if_pipe-Grows a.to write_into_pipe closed,
      close_from-Grows a.from (close_if_pipe a.to write_into_pipe closed) h,
    )

pub init_appender-Grows :
    (sys : System) (a : Appender) (m : Machine) {m' : Machine}
    → init_appender sys a m ≡ done m'
    → Grows 0 (length a.from) m m'
unfolding init_appender
init_appender-Grows sys a m h =
    let (r, e, k) =
      bind-eq-done (open_redirect_file_if_needed sys a.to (open_pipe_if_needed a.to m)) _ h in
    omega (
      arith,
      open_pipe-Grows a.to m,
      open_redirect-Grows sys a.to (open_pipe_if_needed a.to m) {d = r.0} {m' = r.1} e,
      open_pipes-Grows a.from r.1,
      start_appender-Grows (sys.fork_result (open_pipes a.from r.1).asked) a r.0
          (ask (open_pipes a.from r.1)) k,
    )

fork_executable-Grows :
    (r : ForkResult) (f : NodeFields) (e : ExecutableNode) (i o : Stream) (x : ExecutionResult)
    (m : Machine)
    → Grows 0 0 m (fork_executable r f e i o x m).1
unfolding fork_executable
fork_executable-Grows failed f e i o x m = omega arith
fork_executable-Grows (child pid) f e i o x m = omega (
  arith,
  close_if_pipe-Grows i read_from_pipe (call (fork_child pid) m),
  close_if_pipe-Grows o write_into_pipe (close_if_pipe i read_from_pipe (call (fork_child pid) m)),
)

-- A successful start passes the growth of its machine on.
Grows-done :
    {A : Type 0} (a b : A) (w d : ℕ) (m k m' : Machine)
    → Grows w d m k
    → ◌≡◌ {A = Outcome (A × Machine)} (done (a, k)) (done (b, m'))
    → Grows w d m m'
Grows-done a b w d m k m' g e = ground arith

create_result-Grows : (sys : System) (m : Machine) → Grows 0 0 m (create_execution_result sys m).1
unfolding create_execution_result
create_result-Grows sys m = omega arith

execute_with_streams-Grows :
    (sys : System) (f : NodeFields) (e : ExecutableNode) (i o : Stream) (m : Machine)
    → Grows 1 0 m (execute_with_streams sys f e i o m).1
unfolding execute_with_streams
execute_with_streams-Grows sys f e i o m =
    let opened = open_pipe_if_needed o (open_pipe_if_needed i m) in
    let (result, m') = create_execution_result sys opened in
    let counted = ask (record m' { to_wait = m'.to_wait + 1 }) in
    omega (
      arith,
      open_pipe-Grows i m,
      open_pipe-Grows o (open_pipe_if_needed i m),
      create_result-Grows sys opened,
      fork_executable-Grows (sys.fork_result m'.asked) f e i o result counted,
    )

execute_executable-Grows :
    (sys : System) (f : NodeFields) (e : ExecutableNode) (m : Machine) {n : Node} {m' : Machine}
    → execute_executable_async sys f e m ≡ done (n, m')
    → Grows 1 0 m m'
unfolding execute_executable_async
execute_executable-Grows sys f e m {n} {m'} h = go f.std_in f.std_out refl refl
  where
    go : (i o : Option Stream) → f.std_in ≡ i → f.std_out ≡ o → Grows 1 0 m m'
    go none o ei eo = absurd (ground arith)
    go (some i) none ei eo = absurd (ground arith)
    go (some i) (some o) ei eo =
        let x = execute_with_streams sys f e i o m in
        let e' : ◌≡◌ {A = Outcome (Node × Machine)} (done (x.0, x.1)) (done (n, m')) =
          ground arith in
        Grows-done x.0 n 1 0 m x.1 m' (execute_with_streams-Grows sys f e i o m) e'

mutual
  unfolding execute_async started FitAppenders count_max_appender_file_descriptors
      own_appender_file_descriptors

  async-Grows :
      (sys : System) (n : Node) (m : Machine) {n' : Node} {m' : Machine}
      → FitAppenders n
      → execute_async sys n m ≡ done (n', m')
      → Grows (started n) (count_max_appender_file_descriptors n) m m'
  async-Grows sys (executable f e) m fit h = execute_executable-Grows sys f e m h
  async-Grows sys (operands f pipe_node a ns) m {n'} {m'} fit h =
      let x = create_execution_result sys m in
      let (r, e, k) = bind-eq-done (execute_all_async sys ns x.1) _ h in
      let g = all-Grows sys ns x.1 {ns' = r.0} {m' = r.1} fit.1 e in
      Grows-done (operands (record f { result = some x.0 }) pipe_node a r.0) n' (started_all ns)
        (0 + count_max_appender_file_descriptors_of_nodes ns) m r.1 m'
        (omega (arith, create_result-Grows sys m, g)) k
  async-Grows sys (operands f and_node a ns) m {n'} {m'} fit h =
      let x = create_execution_result sys m in
      let (r, e, k) = bind-eq-done (execute_first_async sys a ns x.1) _ h in
      let g = first-Grows sys a ns x.1 {ns' = r.0} {m' = r.1} fit.0 fit.1 e in
      Grows-done (operands (record f { result = some x.0 }) and_node a r.0) n' (started_first ns)
        (2 * length (to_list ns) + 2 + count_max_appender_file_descriptors_of_nodes ns) m r.1 m'
        (omega (arith, create_result-Grows sys m, g)) k
  async-Grows sys (operands f or_node a ns) m {n'} {m'} fit h =
      let x = create_execution_result sys m in
      let (r, e, k) = bind-eq-done (execute_first_async sys a ns x.1) _ h in
      let g = first-Grows sys a ns x.1 {ns' = r.0} {m' = r.1} fit.0 fit.1 e in
      Grows-done (operands (record f { result = some x.0 }) or_node a r.0) n' (started_first ns)
        (2 * length (to_list ns) + 2 + count_max_appender_file_descriptors_of_nodes ns) m r.1 m'
        (omega (arith, create_result-Grows sys m, g)) k
  async-Grows sys (operands f semicolon_node a ns) m {n'} {m'} fit h =
      let x = create_execution_result sys m in
      let (r, e, k) = bind-eq-done (execute_first_async sys a ns x.1) _ h in
      let g = first-Grows sys a ns x.1 {ns' = r.0} {m' = r.1} fit.0 fit.1 e in
      Grows-done (operands (record f { result = some x.0 }) semicolon_node a r.0) n'
        (started_first ns)
        (2 * length (to_list ns) + 2 + count_max_appender_file_descriptors_of_nodes ns) m r.1 m'
        (omega (arith, create_result-Grows sys m, g)) k

  all-Grows :
      (sys : System) (ns : Nodes) (m : Machine) {ns' : Nodes} {m' : Machine}
      → FitAppendersBelow ns
      → execute_all_async sys ns m ≡ done (ns', m')
      → Grows (started_all ns) (count_max_appender_file_descriptors_of_nodes ns) m m'
  all-Grows sys nil m fit h = ground arith
  all-Grows sys (cons n ns) m {ns'} {m'} fit h =
      let (r, e, k) = bind-eq-done (execute_async sys n m) _ h in
      let (r', e', k') = bind-eq-done (execute_all_async sys ns r.1) _ k in
      let g = async-Grows sys n m {n' = r.0} {m' = r.1} fit.0 e in
      let g' = all-Grows sys ns r.1 {ns' = r'.0} {m' = r'.1} fit.1 e' in
      Grows-done (cons r.0 r'.0) ns' (started n + started_all ns)
        (count_max_appender_file_descriptors n + count_max_appender_file_descriptors_of_nodes ns) m
        r'.1 m' (omega (arith, g, g')) k'

  first-Grows :
      (sys : System) (a : Option Appender) (ns : Nodes) (m : Machine) {ns' : Nodes} {m' : Machine}
      → FitsAppender a ns
      → FitAppendersBelow ns
      → execute_first_async sys a ns m ≡ done (ns', m')
      → Grows
          (started_first ns)
          (length (to_list ns) + count_max_appender_file_descriptors_of_nodes ns)
          m
          m'
  first-Grows sys a nil m fit below h = ground arith
  first-Grows sys none (cons n ns) m fit below h = cc
  first-Grows sys (some a) (cons n ns) m {ns'} {m'} fit below h =
      let (r, e, k) = bind-eq-done (init_appender sys a m) _ h in
      let (r', e', k') = bind-eq-done (execute_async sys n r) _ k in
      let g = init_appender-Grows sys a m e in
      let g' = async-Grows sys n r {n' = r'.0} {m' = r'.1} below.0 e' in
      Grows-done (cons r'.0 ns) ns' (started n)
        (suc (length (to_list ns))
          + (count_max_appender_file_descriptors n
              + count_max_appender_file_descriptors_of_nodes ns))
        m r'.1 m' (omega (arith, g, g', fit)) k'

-- execute_async counts one child for each executable that it starts (every operand of a pipe, the
-- first of an And, Or or Semicolon node), whatever forks fail, and the descriptors that it adds to
-- open_appender_fds are no more than count_max_appender_file_descriptors of the node, where each
-- appender reads as many streams as its node has operands.
pub execute_async-counts :
    (sys : System) (n : Node) (m : Machine) {n' : Node} {m' : Machine}
    → FitAppenders n
    → execute_async sys n m ≡ done (n', m')
    → (m'.to_wait ≡ m.to_wait + started n)
      × (length m'.open_appender_fds
          ≤ length m.open_appender_fds + count_max_appender_file_descriptors n)
execute_async-counts sys n m fit h = let g = async-Grows sys n m fit h in (g.waits, g.holds)
