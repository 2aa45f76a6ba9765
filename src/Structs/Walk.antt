-- ===== src/Structs/Walk.antt =====
-- The functions of src/structs/node.c that read a command tree.
use command_stats.Common.{
  ℕ, ◌+◌, ◌*◌, Bool, true, false, not, ◌&&◌, ◌||◌, Option, none, some, ◌==◌, if◌then◌else◌, length,
}
use command_stats.Structs.Node.{
  Operator, pipe_node, and_node, or_node, semicolon_node, Node, executable, operands, Nodes, nil,
  cons, address, to_list,
}

unfoldable pub is_operand_node : Node → Bool
is_operand_node (executable f e) = false
is_operand_node (operands f op a ns) = true

unfoldable mutual
  pub count_executables_in_tree : Node → ℕ
  count_executables_in_tree (executable f e) = 1
  count_executables_in_tree (operands f op a ns) = count_executables_in_nodes ns

  pub count_executables_in_nodes : Nodes → ℕ
  count_executables_in_nodes nil = 0
  count_executables_in_nodes (cons n ns) =
      count_executables_in_tree n + count_executables_in_nodes ns

-- what one operator node adds
unfoldable pub own_appender_file_descriptors : Operator → ℕ → ℕ
own_appender_file_descriptors pipe_node count = 0
own_appender_file_descriptors and_node count = 2 * count + 2
own_appender_file_descriptors or_node count = 2 * count + 2
own_appender_file_descriptors semicolon_node count = 2 * count + 2

unfoldable mutual
  pub count_max_appender_file_descriptors : Node → ℕ
  count_max_appender_file_descriptors (executable f e) = 0
  count_max_appender_file_descriptors (operands f op a ns) =
      own_appender_file_descriptors op (length (to_list ns))
      + count_max_appender_file_descriptors_of_nodes ns

  pub count_max_appender_file_descriptors_of_nodes : Nodes → ℕ
  count_max_appender_file_descriptors_of_nodes nil = 0
  count_max_appender_file_descriptors_of_nodes (cons n ns) =
      count_max_appender_file_descriptors n + count_max_appender_file_descriptors_of_nodes ns

-- `*result` and `*result_father` of a successful search
pub record Found : Type 0 where
  pub result : Node
  pub result_father : Option Node

-- `*result_father = tree`, where it is still NULL
unfoldable pub set_father : Node → Found → Found
set_father tree r = record r {
  result_father = elim r.result_father [ none ↦ some tree | some f ↦ some f ];
}

-- find_node_in_tree_with_pid, with find_node_in_tree_with_pid_r and its loop
unfoldable mutual
  pub find_node_in_tree_with_pid : Node → ℕ → Option Found
  find_node_in_tree_with_pid (executable f e) pid =
      if f.pid == pid then some (record { result = executable f e; result_father = none }) else none
  find_node_in_tree_with_pid (operands f op a ns) pid =
      find_in_operands_with_pid (operands f op a ns) ns pid

  pub find_in_operands_with_pid : Node → Nodes → ℕ → Option Found
  find_in_operands_with_pid tree nil pid = none
  find_in_operands_with_pid tree (cons n ns) pid = elim (find_node_in_tree_with_pid n pid) [
    | some r ↦ some (set_father tree r)
    | none ↦ find_in_operands_with_pid tree ns pid
  ]

-- find_father_of_node_in_tree, and its loop; `child` is a pointer
unfoldable mutual
  pub find_father_of_node_in_tree : ℕ → Node → Option Node
  find_father_of_node_in_tree child (executable f e) = none
  find_father_of_node_in_tree child (operands f op a ns) =
      find_father_in_operands child (operands f op a ns) ns

  pub find_father_in_operands : ℕ → Node → Nodes → Option Node
  find_father_in_operands child tree nil = none
  find_father_in_operands child tree (cons n ns) = elim (address n == child) [
    | true ↦ some tree
    | false ↦ elim (find_father_of_node_in_tree child n) [
      | some r ↦ some r
      | none ↦ find_father_in_operands child tree ns
    ]
  ]

-- find_next_node_in_operands: the loop stops before the last operand
unfoldable pub find_next_node_in_operands : Nodes → ℕ → Option Node
find_next_node_in_operands nil executed_child = none
find_next_node_in_operands (cons n nil) executed_child = none
find_next_node_in_operands (cons n (cons m ns)) executed_child =
    if address n == executed_child
    then some m
    else find_next_node_in_operands (cons m ns) executed_child

-- The loop of remove_node_from_operands, by the index written: slot i - 1 takes operand i once the
-- node to remove has been passed, unless operand i is that node; the last slot is given up.
unfoldable pub shift_operands : Bool → Nodes → ℕ → Nodes
shift_operands removed nil to_remove = nil
shift_operands removed (cons n nil) to_remove = nil
shift_operands removed (cons n (cons m ns)) to_remove =
    let passed = removed || address n == to_remove in
    cons (if passed && not (address m == to_remove) then m else n)
      (shift_operands passed (cons m ns) to_remove)

unfoldable pub remove_node_from_operands : Nodes → ℕ → Nodes
unfolding shift_operands
remove_node_from_operands ns to_remove = shift_operands false ns to_remove
