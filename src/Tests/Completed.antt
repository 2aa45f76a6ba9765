-- ===== src/Tests/Completed.antt =====
-- What follows when a command has completed.
use command_stats.Common.{ℕ, ◌≡◌, refl, [], ◌∷◌, none, some}
use command_stats.Common.Distinct.{Distinct}
use command_stats.Common.Outcome.{done}
use command_stats.Structs.Node.{
  NodeFields, Node, executable, operands, and_node, or_node, pipe_node, Nodes, nil, cons, addresses,
  head,
}
use command_stats.Execute.Failed.{pids, mark, HasResult}
use command_stats.Execute.Failed.Marked.{on_execution_failed-mark}
use command_stats.Execute.System.{exited_correctly}
use command_stats.Execute.Manage.{
  on_execution_failed, read_exit_code, handle_completed, action, is_some, start_machine,
}
use command_stats.Execute.Verdict.{shell_exit_code}
use command_stats.Execute.Root.{after_action, behind, handle_completed-root}
use command_stats.Tests.Samples.{fields_at, make_command, test, forks, unfinished}

-- the third of them succeeds
third_succeeds : shell_exit_code (exited_correctly forks) or_node 256 (512 ∷ 0 ∷ 256 ∷ []) ≡ 0
unfolding shell_exit_code
third_succeeds = refl

-- make && test, where make has failed
abbrev failed_make : Node
failed_make =
    executable (record (fields_at 2) { result = some (record unfinished { exit_code = some 512 }) })
      make_command

abbrev root_fields : NodeFields
root_fields = record (fields_at 1) { result = some unfinished }

abbrev below_root : Nodes
below_root = cons failed_make (cons test nil)

failed_make-status : read_exit_code failed_make ≡ done 512
unfolding read_exit_code
failed_make-status = refl

root-Distinct : Distinct (addresses (operands root_fields and_node none below_root))
unfolding addresses
root-Distinct = (refl, (refl, (refl, tt)))

handle_completed-root_example :
    handle_completed 1 forks 1 2 (operands root_fields and_node none below_root) start_machine
    ≡ after_action forks
        (operands root_fields and_node none below_root)
        unfinished
        (behind {c = failed_make} {ns = below_root} head)
        start_machine
        (action and_node 512
          (exited_correctly forks 512)
          (is_some (behind {c = failed_make} {ns = below_root} head)))
handle_completed-root_example =
    handle_completed-root 0 forks root_fields and_node none below_root unfinished failed_make 512
      start_machine head root-Distinct refl failed_make-status

-- a command that has been started with this pid
abbrev running_command : ℕ → ℕ → Node
running_command k pid =
    executable (record (fields_at k) { result = some unfinished; pid = pid }) make_command

abbrev started_pipe : Node
started_pipe =
    operands root_fields pipe_node none
      (cons (running_command 2 202) (cons (running_command 3 203) nil))

started_pipe-Distinct : Distinct (addresses started_pipe)
unfolding addresses
started_pipe-Distinct = (refl, (refl, (refl, tt)))

pids-Distinct : Distinct (pids started_pipe)
unfolding pids
pids-Distinct = (refl, (refl, tt))

started_pipe-HasResult : HasResult 203 started_pipe
unfolding HasResult
started_pipe-HasResult = ((λ e. (unfinished, refl)), ((λ e. (unfinished, refl)), tt))

on_execution_failed-mark_example :
    on_execution_failed 203 started_pipe ≡ done (mark 203 started_pipe)
on_execution_failed-mark_example =
    on_execution_failed-mark 203 started_pipe started_pipe-Distinct pids-Distinct
      started_pipe-HasResult
