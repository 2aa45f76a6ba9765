-- ===== src/Execute/Root.antt =====
-- What becomes of an operator node that is the root, when one of its operands has completed.
use command_stats.Common.{
  ℕ, suc, ◌≡◌, refl, ◌∙◌, false, ◌++◌, Option, none, some, arith, ◌==◌, ==_iff,
}
use command_stats.Common.Distinct.{has, has-append, Distinct, Distinct-right, Distinct-apart}
use command_stats.Common.Outcome.{Outcome, done, ◌>>=◌}
use command_stats.Structs.Stream.{Appender}
use command_stats.Structs.Node.{
  ExecutionResult, NodeFields, Operator, Node, executable, operands, Nodes, nil, cons, fields,
  address, addresses, addresses_of_nodes, IsOperand, head, tail,
}
use command_stats.Structs.Walk.{find_father_of_node_in_tree, find_next_node_in_operands}
use command_stats.Structs.Father.{has-operand, father-none, apart-root}
use command_stats.Execute.System.{System, Machine, exited_correctly}
use command_stats.Execute.Manage.{
  node_at, node_among, write_node, read_exit_code, set_exit_code, Action, start_next, end_with,
  go_on, action, is_some, set_result, start_node, handle_completed,
}

mutual
  unfolding node_at node_among addresses addresses_of_nodes

  node_at-absent : (p : ℕ) (n : Node) → has p (addresses n) ≡ false → node_at p n ≡ none
  node_at-absent p (executable f e) h = ground arith
  node_at-absent p (operands f op a ns) h = ground (arith, node_among-absent p ns)

  node_among-absent :
      (p : ℕ) (ns : Nodes) → has p (addresses_of_nodes ns) ≡ false → node_among p ns ≡ none
  node_among-absent p nil h = refl
  node_among-absent p (cons n ns) h = ground (
    arith,
    has-append p (addresses n) (addresses_of_nodes ns),
    node_at-absent p n,
    node_among-absent p ns,
  )

node_at_self : (n : Node) → node_at (address n) n ≡ some n
unfolding node_at
node_at_self (executable f e) = ground arith
node_at_self (operands f op a ns) = ground arith

node_among-cons :
    (p : ℕ) (n : Node) (ns : Nodes)
    → node_among p (cons n ns) ≡ (elim (node_at p n) [ some m ↦ some m | none ↦ node_among p ns ])
unfolding node_among
node_among-cons p n ns = refl

node_among-operand :
    (c : Node) (ns : Nodes)
    → IsOperand c ns
    → Distinct (addresses_of_nodes ns)
    → node_among (address c) ns ≡ some c
unfolding addresses_of_nodes
node_among-operand c nil i d = elim i [ ]
node_among-operand c (cons n ns) head d =
    node_among-cons (address c) c ns ∙ rw (node_at_self c) refl
node_among-operand c (cons n ns) (tail i) d =
    let out : has (address c) (addresses n) ≡ false =
      Distinct-apart (address c) (addresses n) (addresses_of_nodes ns) d (has-operand c ns i) in
    node_among-cons (address c) n ns
    ∙ rw (node_at-absent (address c) n out)
        (node_among-operand c ns i (Distinct-right (addresses n) (addresses_of_nodes ns) d))

-- the operand directly behind one
unfoldable pub behind : {c : Node} {ns : Nodes} → IsOperand c ns → Option Node
behind (head {ns = nil}) = none
behind (head {ns = cons n ns}) = some n
behind (tail i) = behind i

apart-operand :
    (n c : Node) (ns : Nodes)
    → IsOperand c ns
    → Distinct (addresses n ++ addresses_of_nodes ns)
    → (address n == address c) ≡ false
apart-operand n c ns i d =
    apart-root (address c) n
      (Distinct-apart (address c) (addresses n) (addresses_of_nodes ns) d (has-operand c ns i))

find_next-behind :
    {c : Node} {ns : Nodes} (i : IsOperand c ns)
    → Distinct (addresses_of_nodes ns)
    → find_next_node_in_operands ns (address c) ≡ behind i
unfolding find_next_node_in_operands behind addresses_of_nodes
find_next-behind (head {ns = nil}) d = refl
find_next-behind (head {ns = cons n ns}) d = ground arith
find_next-behind {c} (tail {n} {ns = nil} i) d = elim i [ ]
find_next-behind {c} (tail {n} {ns = cons m ms} i) d =
    rw (apart-operand n c (cons m ms) i d)
      (find_next-behind i (Distinct-right (addresses n) (addresses_of_nodes (cons m ms)) d))

set_exit_code-some :
    (n : Node) (r : ExecutionResult) (code : ℕ)
    → (fields n).result ≡ some r
    → set_exit_code n code ≡ done (set_result n (record r { exit_code = some code }))
unfolding set_exit_code
set_exit_code-some (executable f e) r code h = ground arith
set_exit_code-some (operands f op a ns) r code h = ground arith

pub write_node_self : (new n : Node) → write_node (address n) new n ≡ new
unfolding write_node
write_node_self new (executable f e) = ground arith
write_node_self new (operands f op a ns) = ground arith

child_at :
    (f : NodeFields) (op : Operator) (a : Option Appender) (ns : Nodes) (c : Node)
    → IsOperand c ns
    → Distinct (addresses (operands f op a ns))
    → node_at (address c) (operands f op a ns) ≡ some c
unfolding node_at addresses
child_at f op a ns c i d =
    ground
      (arith, d.0, has-operand c ns i, node_among-operand c ns i d.1, ==_iff f.address (address c))

-- What handle_operands_node_execution_completed does for an operator node that is the root, by its
-- action: it starts the operand `next`, or writes the exit code, or leaves all as it is.
unfoldable pub after_action :
    System → Node → ExecutionResult → Option Node → Machine → Action → Outcome (Node × Machine)
after_action sys tree r next m start_next = start_node sys next tree m
after_action sys tree r next m (end_with code) =
    done (set_result tree (record r { exit_code = some code }), m)
after_action sys tree r next m go_on = done (tree, m)

-- The cases of the switch, for a root.
switch-after_action :
    (k : ℕ) (sys : System) (f : NodeFields) (op : Operator) (a : Option Appender) (ns : Nodes)
    (r : ExecutionResult) (next : Option Node) (m : Machine) (x : Action)
    → has f.address (addresses_of_nodes ns) ≡ false
    → f.result ≡ some r
    → (elim x [
      | go_on ↦ done (operands f op a ns, m)
      | start_next ↦ start_node sys next (operands f op a ns) m
      | end_with code ↦ set_exit_code (operands f op a ns) code >>= λ ended.
          let tree' = write_node f.address ended (operands f op a ns) in
          elim (find_father_of_node_in_tree f.address tree') [
            | none ↦ done (tree', m)
            | some g ↦ handle_completed k sys (address g) f.address tree' m
          ]
    ])
      ≡ after_action sys (operands f op a ns) r next m x
unfolding after_action
switch-after_action k sys f op a ns r next m go_on h hr = refl
switch-after_action k sys f op a ns r next m start_next h hr = refl
switch-after_action k sys f op a ns r next m (end_with code) h hr =
    let ended : Node = set_result (operands f op a ns) (record r { exit_code = some code }) in
    let e : write_node f.address ended (operands f op a ns) ≡ ended =
      write_node_self ended (operands f op a ns) in
    let top : find_father_of_node_in_tree f.address ended ≡ none = father-none f.address ended h in
    ground (arith, set_exit_code-some (operands f op a ns) r code hr, e, top)

-- Where the completed operand of a root with distinct addresses has an exit code, the handler takes
-- the action for this code, for whether an operand stands behind the completed one, and for that
-- operand: it reaches no wrong node and does not climb, so one round is enough.
pub handle_completed-root :
    (k : ℕ) (sys : System) (f : NodeFields) (op : Operator) (a : Option Appender) (ns : Nodes)
    (r : ExecutionResult) (c : Node) (status : ℕ) (m : Machine) (i : IsOperand c ns)
    → Distinct (addresses (operands f op a ns))
    → f.result ≡ some r
    → read_exit_code c ≡ done status
    → handle_completed (suc k) sys f.address (address c) (operands f op a ns) m
      ≡ after_action sys
          (operands f op a ns)
          r
          (behind i)
          m
          (action op status (exited_correctly sys status) (is_some (behind i)))
unfolding addresses handle_completed
handle_completed-root k sys f op a ns r c status m i d hr hs =
    let tree : Node = operands f op a ns in
    let e : node_at f.address tree ≡ some tree = node_at_self tree in
    let e' : node_at (address c) tree ≡ some c = child_at f op a ns c i d in
    let e'' : find_next_node_in_operands ns (address c) ≡ behind i = find_next-behind i d.1 in
    ground (
      arith,
      e,
      e',
      hs,
      e'',
      switch-after_action k sys f op a ns r (behind i) m
          (action op status (exited_correctly sys status) (is_some (behind i))) d.0 hr,
    )
