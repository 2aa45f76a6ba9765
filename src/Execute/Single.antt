-- ===== src/Execute/Single.antt =====
-- The execution of one command, from the fork to the status that wait3 reports.
use command_stats.Common.{
  ℕ, zero, suc, ◌+◌, ◌-◌, ◌<◌, ◌≡◌, ◌≢◌, refl, sym, ap, ◌∙◌, none, some, arith, ==_iff,
}
use command_stats.Common.Outcome.{done}
use command_stats.Structs.Node.{ExecutionResult, Node, NodeFields, ExecutableNode, executable}
use command_stats.Structs.Stream.{
  Direction, read_from_pipe, write_into_pipe, Stream, pipe_stream, file_descriptor_stream,
  file_stream,
}
use command_stats.Structs.Walk.{find_node_in_tree_with_pid}
use command_stats.Execute.System.{
  call, fork_child, child, WaitResult, System, Machine, ask, open_pipe_if_needed,
  create_execution_result,
}
use command_stats.Execute.Start.{close_if_pipe, execute_async}
use command_stats.Execute.Manage.{
  write_node, read_exit_code, assign_results, collect, manage_running_nodes, start_machine, execute,
}

-- no child is left to wait for
pub manage-no_child :
    (k : ℕ) (sys : System) (tree : Node) (m : Machine)
    → m.to_wait ≡ 0
    → manage_running_nodes k sys tree m ≡ done (tree, m)
unfolding manage_running_nodes
manage-no_child zero sys tree m h = ground arith
manage-no_child (suc k) sys tree m h = ground arith

-- the result that assign_results gives
abbrev pub reported : System → Machine → ExecutionResult → WaitResult → ExecutionResult
reported sys m r w = record r {
  exit_code = some w.status;
  end_time = some (sys.clock m.asked);
  user_cpu_time_used = some w.ru_utime;
  system_cpu_time_used = some w.ru_stime;
  maximum_resident_set_size = some w.ru_maxrss;
}

pub find_node-own :
    (f : NodeFields) (e : ExecutableNode) (pid : ℕ)
    → pid ≡ f.pid
    → find_node_in_tree_with_pid (executable f e) pid
      ≡ some (record { result = executable f e; result_father = none })
unfolding find_node_in_tree_with_pid
find_node-own f e pid h = ground (arith, ==_iff f.pid pid)

collect-own :
    (sys : System) (f : NodeFields) (e : ExecutableNode) (r : ExecutionResult) (w : WaitResult)
    (m : Machine)
    → f.result ≡ some r
    → collect sys (record { result = executable f e; result_father = none }) w (executable f e) m
      ≡ done (executable (record f { result = some (reported sys m r w) }) e, ask m)
unfolding collect assign_results write_node
collect-own sys f e r w m h =
    rw (h, collect, assign_results) (rw ((==_iff f.address f.address).1 refl) refl)

manage-own :
    (k : ℕ) (sys : System) (f : NodeFields) (e : ExecutableNode) (r : ExecutionResult) (m : Machine)
    → f.result ≡ some r
    → m.to_wait ≡ 1
    → (sys.wait3 m.asked).pid ≡ f.pid
    → (m' : Machine) × (manage_running_nodes (suc k) sys (executable f e) m
        ≡ done (
          executable (record f { result = some (reported sys (ask m) r (sys.wait3 m.asked)) }) e,
          m',
        ))
unfolding manage_running_nodes
manage-own k sys f e r m result one own =
    let m' = record (ask (ask m)) { to_wait = m.to_wait - 1 } in
    let w = sys.wait3 m.asked in
    (
      m',
      ground (
        arith,
        find_node-own f e w.pid own,
        collect-own sys f e r w (ask m) result,
        manage-no_child k sys (executable (record f { result = some (reported sys (ask m) r w) }) e)
            m' (omega arith),
      ),
    )

manage-stranger :
    (k : ℕ) (sys : System) (f : NodeFields) (e : ExecutableNode) (m : Machine)
    → m.to_wait ≡ 1
    → (sys.wait3 m.asked).pid ≢ f.pid
    → manage_running_nodes (suc k) sys (executable f e) m
      ≡ manage_running_nodes k sys (executable f e) (ask m)
unfolding manage_running_nodes find_node_in_tree_with_pid
manage-stranger k sys f e m one stranger = ground arith

manage-single :
    (k j : ℕ) (sys : System) (f : NodeFields) (e : ExecutableNode) (r : ExecutionResult)
    (m : Machine)
    → f.result ≡ some r
    → m.to_wait ≡ 1
    → j < k
    → ((i : ℕ) → i < j → (sys.wait3 (m.asked + i)).pid ≢ f.pid)
    → (sys.wait3 (m.asked + j)).pid ≡ f.pid
    → (n : ℕ) × (m' : Machine) × (manage_running_nodes k sys (executable f e) m
        ≡ done (
          executable
              (record f {
                result = some (reported sys (record m { asked = n }) r (sys.wait3 (m.asked + j)));
              })
              e,
          m',
        ))
manage-single zero j sys f e r m result one room strangers own = absurd (omega (arith, room))
manage-single (suc k) zero sys f e r m result one room strangers own =
    let z : m.asked ≡ m.asked + 0 = omega arith in
    let (m', h) = manage-own k sys f e r m result one (rw z own) in (m.asked + 1, m', rw (sym z) h)
manage-single (suc k) (suc j) sys f e r m result one room strangers own =
    let step : (i : ℕ) → m.asked + 1 + i ≡ m.asked + suc i = λ i. omega arith in
    let z : m.asked ≡ m.asked + 0 = omega arith in
    let (n, m', h) =
      manage-single k j sys f e r (ask m) result one (omega (arith, room))
        (λ i lt. rw (step i) (strangers (suc i) (omega (arith, lt)))) (rw (step j) own) in
    (
      n,
      m',
      manage-stranger k sys f e m one (rw z (strangers 0 (omega arith))) ∙ rw (sym (step j)) h,
    )

open_pipe-counts :
    (s : Stream) (m : Machine)
    → ((open_pipe_if_needed s m).to_wait ≡ m.to_wait) × ((open_pipe_if_needed s m).asked ≡ m.asked)
unfolding open_pipe_if_needed
open_pipe-counts (pipe_stream p d) m = (ground arith, ground arith)
open_pipe-counts (file_descriptor_stream fd) m = (refl, refl)
open_pipe-counts (file_stream f) m = (refl, refl)

close_if_pipe-counts :
    (s : Stream) (d : Direction) (m : Machine)
    → ((close_if_pipe s d m).to_wait ≡ m.to_wait) × ((close_if_pipe s d m).asked ≡ m.asked)
close_if_pipe-counts (pipe_stream p d) direction m = (refl, refl)
close_if_pipe-counts (file_descriptor_stream fd) direction m = (refl, refl)
close_if_pipe-counts (file_stream f) direction m = (refl, refl)

pub execute_async-forked :
    (sys : System) (f : NodeFields) (e : ExecutableNode) (i o : Stream) (pid : ℕ) (m : Machine)
    → f.std_in ≡ some i
    → f.std_out ≡ some o
    → sys.fork_result (m.asked + 1) ≡ child pid
    → (r : ExecutionResult) × (m' : Machine) × (execute_async sys (executable f e) m
        ≡ done (executable (record f { result = some r; pid = pid }) e, m'))
      × (m'.to_wait ≡ m.to_wait + 1)
      × (m'.asked ≡ m.asked + 2)
unfolding execute_async
execute_async-forked sys f e i o pid m hi ho forks =
    let opened = open_pipe_if_needed o (open_pipe_if_needed i m) in
    let first = open_pipe-counts i m in
    let second = open_pipe-counts o (open_pipe_if_needed i m) in
    let before : opened.asked + 1 ≡ m.asked + 1 = omega (arith, first.1, second.1) in
    let asked = ask (record (ask opened) { to_wait = opened.to_wait + 1 }) in
    let called = call (fork_child pid) asked in
    let third = close_if_pipe-counts i read_from_pipe called in
    let last = close_if_pipe-counts o write_into_pipe (close_if_pipe i read_from_pipe called) in
    (
      (create_execution_result sys opened).0,
      close_if_pipe o write_into_pipe (close_if_pipe i read_from_pipe called),
      ground (arith, hi, ho, ap sys.fork_result before, forks),
      omega (arith, first.0, second.0, third.0, last.0),
      omega (arith, first.1, second.1, third.1, last.1),
    )

-- A command with streams whose fork succeeds is executed to its end: where wait3 reports other
-- processes `j` times and then the command's pid, and may be called more often than that, the
-- execution returns, and the exit code it has stored is the status that wait3 reported of the command.
pub execute-reported :
    (k j pid : ℕ) (sys : System) (f : NodeFields) (e : ExecutableNode) (i o : Stream)
    → f.std_in ≡ some i
    → f.std_out ≡ some o
    → ((n : ℕ) → sys.fork_result n ≡ child pid)
    → j < k
    → ((n : ℕ) → n < j → (sys.wait3 (2 + n)).pid ≢ pid)
    → (sys.wait3 (2 + j)).pid ≡ pid
    → (root : Node) × (m : Machine) × (execute k sys (executable f e) ≡ done (root, m))
      × (read_exit_code root ≡ done (sys.wait3 (2 + j)).status)
unfolding execute read_exit_code
execute-reported k j pid sys f e i o hi ho forks room strangers own =
    let (r, m, h, one, two) = execute_async-forked sys f e i o pid start_machine hi ho (forks 1) in
    let (n, m', g) =
      manage-single k j sys (record f { result = some r; pid = pid }) e r m refl one room
        (λ n lt. rw two (strangers n lt)) (rw two own) in
    (
      executable
          (record f {
            result = some (reported sys (record m { asked = n }) r (sys.wait3 (m.asked + j)));
            pid = pid;
          })
          e,
      m',
      rw (h, execute) g,
      ap (λ (a : ℕ). done (sys.wait3 (a + j)).status) two,
    )
