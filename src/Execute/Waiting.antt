-- ===== src/Execute/Waiting.antt =====
-- What the loop over wait3 does when the count of children is wrong.
use command_stats.Common.{ℕ, zero, suc, ◌+◌, ◌<◌, ◌≡◌, ◌≢◌, refl, none, some, arith}
use command_stats.Common.Outcome.{done, out_of_fuel}
use command_stats.Structs.Node.{Node, NodeFields, ExecutableNode, executable}
use command_stats.Structs.Stream.{Stream, pipe_stream, file_descriptor_stream, file_stream}
use command_stats.Structs.Walk.{find_node_in_tree_with_pid}
use command_stats.Execute.System.{failed, System, Machine, ask, open_pipe_if_needed}
use command_stats.Execute.Start.{execute_async}
use command_stats.Execute.Manage.{manage_running_nodes, start_machine, execute}

-- While a child is counted and wait3 reports no pid of the tree, the loop goes on, however often it
-- may call wait3.
manage-waits_forever :
    (k : ℕ) (sys : System) (tree : Node) (m : Machine)
    → 0 < m.to_wait
    → ((i : ℕ) → find_node_in_tree_with_pid tree (sys.wait3 i).pid ≡ none)
    → manage_running_nodes k sys tree m ≡ out_of_fuel
unfolding manage_running_nodes
manage-waits_forever zero sys tree m h never = ground arith
manage-waits_forever (suc k) sys tree m h never =
    ground (arith, never m.asked, manage-waits_forever k sys tree (ask m) h never)

open_pipe-to_wait : (s : Stream) (m : Machine) → (open_pipe_if_needed s m).to_wait ≡ m.to_wait
unfolding open_pipe_if_needed
open_pipe-to_wait (pipe_stream p d) m = ground arith
open_pipe-to_wait (file_descriptor_stream fd) m = refl
open_pipe-to_wait (file_stream f) m = refl

execute_async-fork_failed :
    (sys : System) (f : NodeFields) (e : ExecutableNode) (i o : Stream) (m : Machine)
    → f.std_in ≡ some i
    → f.std_out ≡ some o
    → ((n : ℕ) → sys.fork_result n ≡ failed)
    → (m' : Machine) × (execute_async sys (executable f e) m
        ≡ done (executable (record f { result = none }) e, m'))
      × (m'.to_wait ≡ m.to_wait + 1)
unfolding execute_async
execute_async-fork_failed sys f e i o m hi ho fails =
    let opened = open_pipe_if_needed o (open_pipe_if_needed i m) in
    (
      ask (record (ask opened) { to_wait = opened.to_wait + 1 }),
      ground (arith, hi, ho, fails (opened.asked + 1)),
      omega (arith, open_pipe-to_wait o (open_pipe_if_needed i m), open_pipe-to_wait i m),
    )

not_found :
    (f : NodeFields) (e : ExecutableNode) (pid : ℕ)
    → pid ≢ f.pid
    → find_node_in_tree_with_pid (executable f e) pid ≡ none
unfolding find_node_in_tree_with_pid
not_found f e pid h = ground arith

-- execute_executable_async counts a child before it forks, and does not take that back: a command
-- whose fork fails is waited for without end, unless wait3 reports a pid that its memory holds.
pub execute-fork_failed :
    (k : ℕ) (sys : System) (f : NodeFields) (e : ExecutableNode) (i o : Stream)
    → f.std_in ≡ some i
    → f.std_out ≡ some o
    → ((n : ℕ) → sys.fork_result n ≡ failed)
    → ((n : ℕ) → (sys.wait3 n).pid ≢ f.pid)
    → execute k sys (executable f e) ≡ out_of_fuel
unfolding execute
execute-fork_failed k sys f e i o hi ho fails apart =
    let (m', e', one) = execute_async-fork_failed sys f e i o start_machine hi ho fails in
    rw (e', execute)
      (manage-waits_forever k sys (executable (record f { result = none }) e) m' (omega arith)
        (λ n. not_found (record f { result = none }) e (sys.wait3 n).pid (apart n)))
