-- ===== src/Execute/Verdict.antt =====
-- The switch of handle_operands_node_execution_completed, followed over the operands of an And, Or
-- or Semicolon node, against what a shell says of these operators.
use command_stats.Common.{
  ℕ, ◌≡◌, Bool, true, false, List, [], ◌∷◌, Option, none, some, arith, if◌then◌else◌,
}
use command_stats.Structs.Node.{Operator, pipe_node, and_node, or_node, semicolon_node}
use command_stats.Execute.System.{System, exited_correctly}
use command_stats.Execute.Manage.{start_next, end_with, go_on, action}
use command_stats.Builtin.Cd.{is_pipe}

-- The exit code of an operator by the switch: `status` is what the operand that is running will end
-- with, and the list what the operands behind it would end with.
unfoldable pub settle : System → Operator → ℕ → List ℕ → Option ℕ
unfolding action
settle sys op status [] = elim (action op status (exited_correctly sys status) false) [
  | end_with code ↦ some code
  | start_next ↦ none
  | go_on ↦ none
]
settle sys op status (next ∷ statuses) =
    let rest = settle sys op next statuses in
    elim (action op status (exited_correctly sys status) true) [
      | end_with code ↦ some code
      | start_next ↦ rest
      | go_on ↦ none
    ]

unfoldable pub last : ℕ → List ℕ → ℕ
last status [] = status
last status (next ∷ statuses) = last next statuses

-- the first status that is no success, or 0
unfoldable pub first_failure : (ℕ → Bool) → List ℕ → ℕ
first_failure correct [] = 0
first_failure correct (status ∷ statuses) =
    if correct status then first_failure correct statuses else status

unfoldable pub some_success : (ℕ → Bool) → List ℕ → Bool
some_success correct [] = false
some_success correct (status ∷ statuses) =
    if correct status then true else some_success correct statuses

-- The exit code of an operator whose operands would end with these statuses.
unfoldable pub shell_exit_code : (ℕ → Bool) → Operator → ℕ → List ℕ → ℕ
unfolding last first_failure some_success
shell_exit_code correct and_node status statuses = first_failure correct (status ∷ statuses)
shell_exit_code correct or_node status statuses =
    if some_success correct (status ∷ statuses) then 0 else last status statuses
shell_exit_code correct semicolon_node status statuses = last status statuses
shell_exit_code correct pipe_node status statuses = last status statuses

-- Following the switch over the operands of an And, Or or Semicolon node, whatever they end with,
-- ends with the exit code that a shell gives: for And the first failure or else 0, for Or 0 if any
-- operand succeeds or else the last status, for Semicolon the last status.
pub settle-shell_exit_code :
    (sys : System) (op : Operator) (status : ℕ) (statuses : List ℕ)
    → is_pipe op ≡ false
    → settle sys op status statuses
      ≡ some (shell_exit_code (exited_correctly sys) op status statuses)
unfolding settle shell_exit_code is_pipe
settle-shell_exit_code sys pipe_node status statuses h = cc
settle-shell_exit_code sys and_node status [] h = ground arith
settle-shell_exit_code sys and_node status (next ∷ statuses) h =
    ground (arith, settle-shell_exit_code sys and_node next statuses h)
settle-shell_exit_code sys or_node status [] h = ground arith
settle-shell_exit_code sys or_node status (next ∷ statuses) h =
    ground (arith, settle-shell_exit_code sys or_node next statuses h)
settle-shell_exit_code sys semicolon_node status [] h = ground arith
settle-shell_exit_code sys semicolon_node status (next ∷ statuses) h =
    ground (arith, settle-shell_exit_code sys semicolon_node next statuses h)
