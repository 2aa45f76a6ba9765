-- ===== src/Execute/Manage.antt =====
-- Waiting for the commands: manage_running_nodes_and_collect_data of src/execute/execute.c, what it
-- calls, and `execute`. A pointer to a node is its address in the tree that is executed.
use command_stats.Common.{
  ℕ, zero, suc, ◌-◌, Bool, true, false, [], Option, none, some, ◌==◌, if◌then◌else◌, length,
}
use command_stats.Common.Outcome.{Outcome, done, fault, out_of_fuel, ◌>>=◌}
use command_stats.Structs.Node.{
  ExecutionResult, Operator, pipe_node, and_node, or_node, semicolon_node, Node, executable,
  operands, Nodes, nil, cons, fields, address, addresses,
}
use command_stats.Structs.Walk.{
  Found, find_node_in_tree_with_pid, find_father_of_node_in_tree, find_next_node_in_operands,
}
use command_stats.Execute.System.{System, WaitResult, Machine, ask, exited_correctly}
use command_stats.Execute.Start.{execute_async}

-- the node that stands at an address
unfoldable mutual
  pub node_at : ℕ → Node → Option Node
  node_at p (executable f e) = if f.address == p then some (executable f e) else none
  node_at p (operands f op a ns) = elim (f.address == p) [
    | true ↦ some (operands f op a ns)
    | false ↦ node_among p ns
  ]

  pub node_among : ℕ → Nodes → Option Node
  node_among p nil = none
  node_among p (cons n ns) = elim (node_at p n) [ some m ↦ some m | none ↦ node_among p ns ]

-- the tree after a write to the node at an address
unfoldable mutual
  pub write_node : ℕ → Node → Node → Node
  write_node p new (executable f e) = if f.address == p then new else executable f e
  write_node p new (operands f op a ns) = elim (f.address == p) [
    | true ↦ new
    | false ↦ operands f op a (write_among p new ns)
  ]

  pub write_among : ℕ → Node → Nodes → Nodes
  write_among p new nil = nil
  write_among p new (cons n ns) = cons (write_node p new n) (write_among p new ns)

abbrev pub read_node : ℕ → Node → Outcome Node
read_node p tree = elim (node_at p tree) [ none ↦ fault | some n ↦ done n ]

abbrev pub set_result : Node → ExecutionResult → Node
set_result (executable f e) r = executable (record f { result = some r }) e
set_result (operands f op a ns) r = operands (record f { result = some r }) op a ns

-- node->result, which must not be NULL
abbrev pub read_result : Node → Outcome ExecutionResult
read_result n = elim (fields n).result [ none ↦ fault | some r ↦ done r ]

-- node->result->exit_code, which must have been written
unfoldable pub read_exit_code : Node → Outcome ℕ
read_exit_code n =
    read_result n >>= λ r. (elim r.exit_code [ none ↦ fault | some code ↦ done code ])

unfoldable pub set_exit_code : Node → ℕ → Outcome Node
set_exit_code n code =
    read_result n >>= λ r. done (set_result n (record r { exit_code = some code }))

-- on_execution_failed: the handler of SIGUSR1, which a child sends whose execvp has failed
unfoldable pub on_execution_failed : ℕ → Node → Outcome Node
on_execution_failed sender_pid tree = elim (find_node_in_tree_with_pid tree sender_pid) [
  | none ↦ done tree
  | some found ↦ read_result found.result >>= λ r. done (
      write_node (address found.result)
        (set_result found.result (record r { invocation_failed = true })) tree)
]

-- assign_results
unfoldable pub assign_results : System → Machine → Node → WaitResult → Outcome Node
assign_results sys m n w = read_result n >>= λ r. done (
    set_result n (record r {
      exit_code = some w.status;
      end_time = some (sys.clock m.asked);
      user_cpu_time_used = some w.ru_utime;
      system_cpu_time_used = some w.ru_stime;
      maximum_resident_set_size = some w.ru_maxrss;
    }))

-- What the switch of handle_operands_node_execution_completed does: it starts the next operand, or
-- ends the operator with an exit code, or does neither.
pub data Action : Type 0 where
  start_next : Action
  end_with : ℕ → Action
  go_on : Action

-- The switch, by the completed node's status, whether it exited correctly, and whether it has a next.
unfoldable pub action : Operator → ℕ → Bool → Bool → Action
action and_node status correct has_next =
    if correct then (if has_next then start_next else end_with 0) else end_with status
action or_node status correct has_next =
    if correct then end_with 0 else if has_next then start_next else end_with status
action semicolon_node status correct has_next = if has_next then start_next else end_with status
action pipe_node status correct has_next = if has_next then go_on else end_with status

abbrev pub is_some {ℓ} : {A : Type ℓ} → Option A → Bool
is_some none = false
is_some (some x) = true

-- execute_async (next)
unfoldable pub start_node : System → Option Node → Node → Machine → Outcome (Node × Machine)
start_node sys none tree m = fault
start_node sys (some next) tree m =
    execute_async sys next m >>= λ (started, m'). done (write_node (address next) started tree, m')

-- handle_operands_node_execution_completed; the pointers are addresses. The depth of the recursion
-- is bounded by the fuel.
unfoldable pub handle_completed : ℕ → System → ℕ → ℕ → Node → Machine → Outcome (Node × Machine)
unfolding action start_node
handle_completed zero sys operands_node completed tree m = out_of_fuel
handle_completed (suc k) sys operands_node completed tree m =
    read_node operands_node tree >>= λ father. elim father [
      | executable f e ↦ fault
      | operands f op a ns ↦ read_node completed tree >>= λ child.
          read_exit_code child >>= λ status.
          let next = find_next_node_in_operands ns completed in
          elim (action op status (exited_correctly sys status) (is_some next)) [
            | go_on ↦ done (tree, m)
            | start_next ↦ start_node sys next tree m
            | end_with code ↦ set_exit_code (operands f op a ns) code >>= λ ended.
                let tree' = write_node operands_node ended tree in
                elim (find_father_of_node_in_tree operands_node tree') [
                  | none ↦ done (tree', m)
                  | some g ↦ handle_completed k sys (address g) operands_node tree' m
                ]
          ]
    ]

-- One child that wait3 reports, where it is a node of the tree.
unfoldable pub collect : System → Found → WaitResult → Node → Machine → Outcome (Node × Machine)
unfolding assign_results handle_completed
collect sys found w tree m = assign_results sys m found.result w >>= λ exited_node.
    let tree' = write_node (address exited_node) exited_node tree in
    (elim found.result_father [
      | none ↦ done (tree', ask m)
      | some father ↦
          handle_completed (length (addresses tree')) sys (address father) (address exited_node)
            tree' (ask m)
    ])

-- The loop, by the calls of wait3 that are still made.
unfoldable pub manage_running_nodes : ℕ → System → Node → Machine → Outcome (Node × Machine)
unfolding collect
manage_running_nodes zero sys tree m = if m.to_wait == 0 then done (tree, m) else out_of_fuel
manage_running_nodes (suc k) sys tree m = elim (m.to_wait == 0) [
  | true ↦ done (tree, m)
  | false ↦
      let w = sys.wait3 m.asked in
      elim (find_node_in_tree_with_pid tree w.pid) [
        | none ↦ manage_running_nodes k sys tree (ask m)
        | some found ↦ collect sys found w tree (ask m) >>= λ (tree', m').
            manage_running_nodes k sys tree' (record m' { to_wait = m'.to_wait - 1 })
      ]
]

abbrev pub start_machine : Machine
start_machine = record {
  to_wait = 0;
  open_appender_fds = [];
  initialized = [];
  asked = 0;
  calls = [];
}

-- execute
unfoldable pub execute : ℕ → System → Node → Outcome (Node × Machine)
unfolding manage_running_nodes
execute k sys node =
    execute_async sys node start_machine >>= λ (tree, m). manage_running_nodes k sys tree m
